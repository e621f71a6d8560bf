-- ===== src/Salesforce.antt =====
-- SalesforceUtil (course_discovery/apps/course_metadata/salesforce.py). Salesforce is a parameter: what
-- it answers to a request, after the requests before. The state is a course run with its course and
-- the first organization of the course, and the requests that were sent, the last one first; what
-- an exception leaves stays written. An empty id is no id. The links to the sites in the payloads,
-- and the receivers of the saves in a call, which find nothing to do, are left out.
pub mod Objects
pub mod Keeps
pub mod Linked
pub mod Posted
pub mod Comments
pub mod Receivers
use course_discovery_ed_uhk.Base.{
  ℕ, String, Bool, true, false, ◌&&◌, ◌||◌, not, Option, none, some, List, [], ◌∷◌, if◌then◌else◌,
  is_some,
}
use course_discovery_ed_uhk.Run.{
  CourseRunStatus, unpublished, legal_review, internal_review, reviewed, published,
}

pub record Organization : Type 0 where
  pub name : String
  pub key : String
  pub salesforce_id : Option String

pub record Course : Type 0 where
  pub title : String
  pub key : String
  pub salesforce_id : Option String
  pub salesforce_case_id : Option String

-- The case of the official version of the course, if there is one.
pub record OfficialCourse : Type 0 where
  pub salesforce_case_id : Option String

pub record CourseRun : Type 0 where
  pub title : String
  pub key : String
  pub start : Option ℕ
  pub end : Option ℕ
  pub status : CourseRunStatus
  pub go_live_date : Option ℕ
  pub has_ofac_restrictions : Option Bool
  pub salesforce_id : Option String

-- `_get_equivalent_status`
unfoldable pub get_equivalent_status : CourseRunStatus → String
get_equivalent_status unpublished = "New/Unsubmitted Edits"
get_equivalent_status legal_review = "In Legal Review"
get_equivalent_status internal_review = "In PC Review"
get_equivalent_status reviewed = "Scheduled"
get_equivalent_status published = "Live"

-- `_get_equivalent_ofac_review_decision`
unfoldable pub get_equivalent_ofac_review_decision : Option Bool → String
get_equivalent_ofac_review_decision none = "Not Reviewed"
get_equivalent_ofac_review_decision (some false) = "OFAC Disabled"
get_equivalent_ofac_review_decision (some true) = "OFAC Enabled"

pub record CoursePayload : Type 0 where
  pub course_name : String
  pub course_key : String
  pub publisher_organization : Option String

pub record CourseRunPayload : Type 0 where
  pub course : Option String
  pub course_start_date : Option ℕ
  pub course_end_date : Option ℕ
  pub publisher_status : String
  pub course_run_name : String
  pub expected_go_live_date : Option ℕ
  pub course_number : String
  pub ofac_review_decision : String

pub data Request : Type 0 where
  login : Request
  create_publisher_organization_request : (name key : String) → Request
  create_course_request : CoursePayload → Request
  create_course_run_request : CourseRunPayload → Request
  create_case_request : (course : String) → (record_type : Option String) → Request
  create_feed_item_request : (parent : String) → (body : String) → Request
  update_publisher_organization_request : (id name key : String) → Request
  update_course_request : (id : String) → CoursePayload → Request
  update_course_run_request : (id : String) → CourseRunPayload → Request

-- The id in the answer, if there is one, or the exception that is raised.
pub data Answer : Type 0 where
  accepted : Option String → Answer
  expired_session : Answer
  os_error : Answer
  other_error : Answer

-- What a call depends on: whether the partner has a configuration, whether a client was made, the
-- record type of a case, and Salesforce.
pub record Util : Type 0 where
  pub enabled : Bool
  pub has_client : Bool
  pub case_record_type_id : Option String
  pub answer : List Request → Request → Answer

pub record State : Type 0 where
  pub organization : Option Organization
  pub course : Course
  pub official_version : Option OfficialCourse
  pub course_run : CourseRun
  pub sent : List Request

pub data Error : Type 0 where
  session_expired os_failure failure not_configured missing_case : Error

pub data Call : Type 0 where
  returned : State → Call
  raised : Error → State → Call

abbrev pub state_of : Call → State
state_of (returned s) = s
state_of (raised e s) = s

unfoldable pub and_then : Call → (State → Call) → Call
and_then (returned s) f = f s
and_then (raised e s) f = raised e s

-- What an answer makes of a request, with what is done with the id in it.
unfoldable pub receive : (Option String → State → State) → State → Answer → Call
receive write s (accepted id) = returned (write id s)
receive write s expired_session = raised session_expired s
receive write s os_error = raised os_failure s
receive write s other_error = raised failure s

unfoldable pub send : Util → Request → (Option String → State → State) → State → Call
unfolding receive
send util request write s =
    receive write (record s { sent = request ∷ s.sent }) (util.answer s.sent request)

-- `self.login()`
unfoldable pub log_in : Util → State → Call
unfolding send
log_in util s = send util login (λ _ t. t) s

-- The handlers of the wrapper: one more try after a new login.
unfoldable pub retry : Util → (State → Call) → Call → Call
unfolding log_in and_then
retry util method (returned s) = returned s
retry util method (raised session_expired s) = and_then (log_in util s) method
retry util method (raised os_failure s) = and_then (log_in util s) method
retry util method (raised failure s) = raised failure s
retry util method (raised not_configured s) = raised not_configured s
retry util method (raised missing_case s) = raised missing_case s

-- `salesforce_request_wrapper`
unfoldable pub request_wrapper : Util → (State → Call) → State → Call
unfolding retry
request_wrapper util method s =
    if util.enabled
    then (if util.has_client then retry util method (method s) else raised not_configured s)
    else returned s

abbrev pub id_of : Option Organization → Option String
id_of none = none
id_of (some organization) = organization.salesforce_id

-- `_build_course_payload`
unfoldable pub build_course_payload : State → CoursePayload
build_course_payload s = record {
  course_name = s.course.title;
  course_key = s.course.key;
  publisher_organization = id_of s.organization;
}

-- `_build_course_run_payload`
unfoldable pub build_course_run_payload : State → CourseRunPayload
unfolding get_equivalent_status get_equivalent_ofac_review_decision
build_course_run_payload s = record {
  course = s.course.salesforce_id;
  course_start_date = s.course_run.start;
  course_end_date = s.course_run.end;
  publisher_status = get_equivalent_status s.course_run.status;
  course_run_name = s.course_run.title;
  expected_go_live_date = s.course_run.go_live_date;
  course_number = s.course_run.key;
  ofac_review_decision = get_equivalent_ofac_review_decision s.course_run.has_ofac_restrictions;
}
