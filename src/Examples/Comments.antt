-- ===== src/Examples/Comments.antt =====
-- Examples for the comments on a course.
use course_discovery_ed_uhk.Base.{
  false, none, some, List, [], ◌∷◌, nat_beq, string_eq, if◌then◌else◌,
}
use course_discovery_ed_uhk.Editors.{User, Course}
use course_discovery_ed_uhk.Salesforce.{State}
use course_discovery_ed_uhk.Salesforce.Comments.{
  Author, Request, Site, Response, bad_request, not_found, permission_denied, created, server_error,
  uncaught,
}
use course_discovery_ed_uhk.Examples.Salesforce.{start, util}

abbrev ann_user : User
ann_user = record { id = 1; is_staff = false; user_organizations = 4 ∷ [] }

abbrev bob_user : User
bob_user = record { id = 2; is_staff = false; user_organizations = 4 ∷ [] }

abbrev ann : Author
ann = record {
  user = ann_user;
  username = "ann";
  email = "ann@x";
  first_name = "Ann";
  last_name = "Lee";
}

abbrev course : Course
course = record { id = 7; authoring_organizations = 4 ∷ []; editors = ann_user ∷ bob_user ∷ [] }

abbrev site : Site
site = record {
  users = ann_user ∷ bob_user ∷ [];
  email = λ user. if nat_beq user.id 1 then "ann@x" else "bob@x";
  project_coordinator = λ c. none;
  salesforce = some util;
  find_course = λ uuid. some (course, start);
}

abbrev request : Request
request = record { course_uuid = some "u"; comment = some "Hello"; course_run_key = none }

abbrev state_of : Response → State
state_of bad_request = start
state_of not_found = start
state_of permission_denied = start
state_of (created s recipients) = s
state_of (server_error s) = s
state_of (uncaught e s) = s

abbrev recipients_of : Response → List User
recipients_of bad_request = []
recipients_of not_found = []
recipients_of permission_denied = []
recipients_of (created s recipients) = recipients
recipients_of (server_error s) = []
recipients_of (uncaught e s) = []
