-- ===== src/Salesforce/Comments/Create.antt =====
-- What a response of 201 to a comment means (course_discovery/apps/api/v1/views/comments.py).
use course_discovery_ed_uhk.Base.{String, ◌≡◌, ◌⊎◌, ◌↔◌, true, false, some, List, ◌==◌, string_eq}
use mathlib.Core.List.{Memᴰ}
use mathlib.Core.List.Memᴰ
use course_discovery_ed_uhk.Editors.{User, Course, is_member, is_course_editable}
use course_discovery_ed_uhk.Salesforce.{State}
use course_discovery_ed_uhk.Salesforce.Posted.{IsPosted}
use course_discovery_ed_uhk.Salesforce.Comments.{Author, Request, Site, format_user_comment_body}

-- A user who edits the course: a valid editor, that is one of an authoring organization, or, where
-- there is none, any user of an authoring organization.
abbrev pub Edits : List User → Course → User → Type 0
unfolding is_member
Edits users course user =
    (is_member course.authoring_organizations user ≡ true)
    × (Memᴰ user course.editors
        ⊎ (Memᴰ user users
            × ((editor : User)
                → Memᴰ editor course.editors
                → is_member course.authoring_organizations editor ≡ false)))

-- A user who gets the e-mail: not the author, and someone who edits the course or its coordinator.
abbrev pub IsRecipient : Site → Course → Author → User → Type 0
IsRecipient site course author user =
    ((site.email user == author.email) ≡ false)
    × (Edits site.users course user ⊎ (site.project_coordinator course ≡ some user))

-- The comment is on the case of a course that the author may edit, as the last thing that was sent, and
-- the author gets no e-mail about it.
pub record IsAnnounced (site : Site) (author : Author) (request : Request) (s : State)
    (recipients : List User) : Type 0 where
  pub course : Course
  pub before : State
  pub uuid : String
  pub comment : String
  pub asked_for : request.course_uuid ≡ some uuid
  pub found : site.find_course uuid ≡ some (course, before)
  pub asked : request.comment ≡ some comment
  pub editable : is_course_editable site.users author.user course ≡ true
  pub posted : IsPosted (format_user_comment_body author comment request.course_run_key) s
  pub recipients_are : (user : User) → Memᴰ user recipients ↔ IsRecipient site course author user
