-- ===== src/Salesforce/Objects.antt =====
-- The organizations, courses, runs, cases and comments of SalesforceUtil
-- (course_discovery/apps/course_metadata/salesforce.py): the body of a method is named `make_...`, and
-- the method is that body under salesforce_request_wrapper.
use course_discovery_ed_uhk.Base.{String, Bool, false, Option, none, some, if◌then◌else◌, is_some}
use course_discovery_ed_uhk.Salesforce.{
  Organization, OfficialCourse, create_publisher_organization_request, create_course_request,
  create_course_run_request, create_case_request, create_feed_item_request,
  update_publisher_organization_request, update_course_request, update_course_run_request, Util,
  State, Call, returned, raised, missing_case, and_then, send, request_wrapper,
  build_course_payload, build_course_run_payload,
}

abbrev pub has_id : Option Organization → Bool
has_id none = false
has_id (some organization) = is_some organization.salesforce_id

abbrev pub set_organization : Organization → Option String → State → State
set_organization organization id s = record s {
  organization = some (record organization { salesforce_id = id });
}

abbrev pub set_course : Option String → State → State
set_course id s = record s { course = record s.course { salesforce_id = id } }

abbrev pub set_course_run : Option String → State → State
set_course_run id s = record s { course_run = record s.course_run { salesforce_id = id } }

-- The body of create_publisher_organization.
unfoldable pub make_publisher_organization : Util → State → Call
unfolding send
make_publisher_organization util s = elim s.organization [
  | none ↦ returned s
  | some organization ↦
      if is_some organization.salesforce_id
      then returned s
      else send util (create_publisher_organization_request organization.name organization.key)
          (set_organization organization) s
]

unfoldable pub create_publisher_organization : Util → State → Call
unfolding request_wrapper make_publisher_organization
create_publisher_organization util = request_wrapper util (make_publisher_organization util)

-- The end of create_course, where the organization has an id.
unfoldable pub send_course : Util → State → Call
unfolding send build_course_payload
send_course util s =
    if has_id s.organization
    then send util (create_course_request (build_course_payload s)) set_course s
    else returned s

-- The body of create_course; without an organization it does nothing.
unfoldable pub make_course : Util → State → Call
unfolding and_then create_publisher_organization send_course
make_course util s =
    if is_some s.course.salesforce_id
    then returned s
    else and_then (create_publisher_organization util s) (send_course util)

unfoldable pub create_course : Util → State → Call
unfolding request_wrapper make_course
create_course util = request_wrapper util (make_course util)

unfoldable pub ensure_course : Util → State → Call
unfolding create_course
ensure_course util s = if is_some s.course.salesforce_id then returned s else create_course util s

unfoldable pub send_course_run : Util → State → Call
unfolding send build_course_run_payload
send_course_run util s =
    if is_some s.course.salesforce_id
    then send util (create_course_run_request (build_course_run_payload s)) set_course_run s
    else returned s

-- The body of create_course_run.
unfoldable pub make_course_run : Util → State → Call
unfolding and_then ensure_course send_course_run
make_course_run util s =
    if is_some s.course_run.salesforce_id
    then returned s
    else and_then (ensure_course util s) (send_course_run util)

unfoldable pub create_course_run : Util → State → Call
unfolding request_wrapper make_course_run
create_course_run util = request_wrapper util (make_course_run util)

abbrev pub set_official_case : Option String → Option OfficialCourse → Option OfficialCourse
set_official_case id none = none
set_official_case id (some official) =
    some
      (if is_some official.salesforce_case_id then official else record { salesforce_case_id = id })

abbrev pub set_case : Option String → State → State
set_case id s = record s {
  course = record s.course { salesforce_case_id = id };
  official_version = set_official_case id s.official_version;
}

unfoldable pub send_case : Util → State → Call
unfolding send
send_case util s = elim s.course.salesforce_id [
  | none ↦ returned s
  | some course ↦ send util (create_case_request course util.case_record_type_id) set_case s
]

-- The body of create_case_for_course.
unfoldable pub make_case : Util → State → Call
unfolding and_then ensure_course send_case
make_case util s =
    if is_some s.course.salesforce_case_id
    then returned s
    else and_then (ensure_course util s) (send_case util)

unfoldable pub create_case_for_course : Util → State → Call
unfolding request_wrapper make_case
create_case_for_course util = request_wrapper util (make_case util)

-- The comment is posted to the case, or an exception says that there is none.
unfoldable pub send_comment : Util → String → State → Call
unfolding send
send_comment util body s = elim s.course.salesforce_case_id [
  | none ↦ raised missing_case s
  | some parent ↦ send util (create_feed_item_request parent body) (λ _ t. t) s
]

-- The body of create_comment_for_course_case, with the body of the comment as it is sent.
unfoldable pub make_comment : Util → String → State → Call
unfolding and_then create_case_for_course send_comment
make_comment util body s =
    and_then
      (if is_some s.course.salesforce_case_id then returned s else create_case_for_course util s)
      (send_comment util body)

unfoldable pub create_comment_for_course_case : Util → String → State → Call
unfolding request_wrapper make_comment
create_comment_for_course_case util body = request_wrapper util (make_comment util body)

unfoldable pub update_publisher_organization : Util → State → Call
unfolding request_wrapper send
update_publisher_organization util = request_wrapper util (λ s. elim s.organization [
  | none ↦ returned s
  | some organization ↦ elim organization.salesforce_id [
    | none ↦ returned s
    | some id ↦
        send util (update_publisher_organization_request id organization.name organization.key)
          (λ _ t. t) s
  ]
])

unfoldable pub update_course : Util → State → Call
unfolding request_wrapper send build_course_payload create_course
update_course util = request_wrapper util (λ s. elim s.course.salesforce_id [
  | none ↦ create_course util s
  | some id ↦ send util (update_course_request id (build_course_payload s)) (λ _ t. t) s
])

unfoldable pub update_course_run : Util → State → Call
unfolding request_wrapper send build_course_run_payload create_course_run
update_course_run util = request_wrapper util (λ s. elim s.course_run.salesforce_id [
  | none ↦ create_course_run util s
  | some id ↦ send util (update_course_run_request id (build_course_run_payload s)) (λ _ t. t) s
])
