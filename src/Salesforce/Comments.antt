-- ===== src/Salesforce/Comments.antt =====
-- CommentViewSet (course_discovery/apps/api/v1/views/comments.py), the comments of SalesforceUtil
-- (course_discovery/apps/course_metadata/salesforce.py), and who gets an e-mail about one
-- (send_email_for_comment in course_discovery/apps/course_metadata/emails.py). How the comments are
-- read back is left out. An empty text is no text.
pub mod Create
use course_discovery_ed_uhk.Base.{
  ℕ, String, Bool, true, false, ◌&&◌, ◌||◌, not, Option, none, some, List, [], ◌∷◌, ◌++◌, map, ◌==◌,
  string_eq, keep, any, first, is_some, if◌then◌else◌,
}
use course_discovery_ed_uhk.Editors.{User, Course, course_editors, is_course_editable}
use course_discovery_ed_uhk.Salesforce.{
  Util, State, Error, missing_case, session_expired, os_failure, failure, not_configured, Call,
  returned, raised,
}
use course_discovery_ed_uhk.Salesforce.Objects.{create_comment_for_course_case}
use Prim.Native.String.{◌++◌ as append}

pub record Author : Type 0 where
  pub user : User
  pub username : String
  pub email : String
  pub first_name : String
  pub last_name : String

abbrev pub user_message : Author → String
user_message author =
    if not (author.first_name == "") && not (author.last_name == "")
    then append "[User]\n" (
        append author.first_name
          (append " " (append author.last_name (append " (" (append author.username ")")))))
    else append "[User]\n" author.username

abbrev pub course_run_message : Option String → String
course_run_message none = ""
course_run_message (some key) = append "[Course Run]\n" (append key "\n\n")

unfoldable pub format_user_comment_body :
    Author → (body : String) → (course_run_key : Option String) → String
format_user_comment_body author body course_run_key =
    append (user_message author)
      (append "\n\n" (append (course_run_message course_run_key) (append "[Body]\n" body)))

pub record Request : Type 0 where
  pub course_uuid : Option String
  pub comment : Option String
  pub course_run_key : Option String

-- All users with the e-mail address of each, the coordinator of a course, the configuration of
-- Salesforce, and the course with what Salesforce knows of it, by its uuid.
pub record Site : Type 0 where
  pub users : List User
  pub email : User → String
  pub project_coordinator : Course → Option User
  pub salesforce : Option Util
  pub find_course : String → Option (Course × State)

pub data Response : Type 0 where
  bad_request not_found permission_denied : Response
  created : State → (recipients : List User) → Response
  server_error : State → Response
  uncaught : Error → State → Response

abbrev pub coordinators : Option User → List User
coordinators none = []
coordinators (some user) = user ∷ []

-- Everyone who edits the course, and the coordinator, but not the author.
unfoldable pub recipients_for_comment : Site → Course → Author → List User
unfolding course_editors
recipients_for_comment site course author =
    keep (λ user. not (site.email user == author.email))
      (course_editors site.users course ++ coordinators (site.project_coordinator course))

unfoldable pub respond : Site → Course → Author → Call → Response
unfolding recipients_for_comment
respond site course author (returned s) = created s (recipients_for_comment site course author)
respond site course author (raised missing_case s) = server_error s
respond site course author (raised session_expired s) = uncaught session_expired s
respond site course author (raised os_failure s) = uncaught os_failure s
respond site course author (raised failure s) = uncaught failure s
respond site course author (raised not_configured s) = uncaught not_configured s

-- A partner whose configuration is found has Salesforce enabled.
abbrev pub enable : Util → Util
enable util = record util { enabled = true }

-- `_get_salesforce_util_or_404`, and the rest of the method.
unfoldable pub send_comment_with :
    Site → Author → Request → (comment : String) → Course → State → Option Util → Response
unfolding format_user_comment_body create_comment_for_course_case respond
send_comment_with site author request comment course s none = not_found
send_comment_with site author request comment course s (some util) = respond site course author (
    create_comment_for_course_case (enable util)
      (format_user_comment_body author comment request.course_run_key) s)

unfoldable pub post_comment :
    Site → Author → Request → (comment : String) → Course → State → Response
unfolding is_course_editable send_comment_with
post_comment site author request comment course s =
    if is_course_editable site.users author.user course
    then send_comment_with site author request comment course s site.salesforce
    else permission_denied

-- `_get_course_or_404`, and the rest of the method.
unfoldable pub find_and_post :
    Site → Author → Request → (comment : String) → Option (Course × State) → Response
unfolding post_comment
find_and_post site author request comment none = not_found
find_and_post site author request comment (some (course, s)) =
    post_comment site author request comment course s

unfoldable pub with_values :
    Site → Author → Request → (course_uuid comment : Option String) → Response
unfolding find_and_post
with_values site author request none comment = bad_request
with_values site author request (some uuid) none = bad_request
with_values site author request (some uuid) (some comment) =
    find_and_post site author request comment (site.find_course uuid)

unfoldable pub create : Site → Author → Request → Response
unfolding with_values
create site author request = with_values site author request request.course_uuid request.comment
