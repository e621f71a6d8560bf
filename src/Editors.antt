-- ===== src/Editors.antt =====
-- CourseEditor (course_discovery/apps/course_metadata/models.py): who can edit a course. Users,
-- organizations and courses are known by their keys; `user_organizations` are the organizations
-- whose groups a user is in.
pub mod Editable
use course_discovery_ed_uhk.Base.{
  ℕ, Bool, true, false, ◌&&◌, ◌||◌, not, List, [], ◌∷◌, nat_beq, if◌then◌else◌, keep, any, is_empty,
}

pub record User : Type 0 where
  pub id : ℕ
  pub is_staff : Bool
  pub user_organizations : List ℕ

pub record Course : Type 0 where
  pub id : ℕ
  pub authoring_organizations : List ℕ
  pub editors : List User

abbrev pub mem : ℕ → List ℕ → Bool
mem key keys = any (nat_beq key) keys

-- `user__groups__organization_extension__organization__in=organizations`
unfoldable pub is_member : List ℕ → User → Bool
is_member organizations user = any (λ o. mem o organizations) user.user_organizations

-- `user` is in a collection of users: rows are equal where their keys are.
abbrev pub is_user : User → User → Bool
is_user user other = nat_beq user.id other.id

unfoldable pub can_create_course : User → ℕ → Bool
can_create_course user organization_key =
    if user.is_staff then true else mem organization_key user.user_organizations

-- `users` are all users.
unfoldable pub course_editors : List User → Course → List User
unfolding is_member
course_editors users course =
    let valid_editors = keep (is_member course.authoring_organizations) course.editors in
    if not (is_empty valid_editors)
    then valid_editors
    else keep (is_member course.authoring_organizations) users

unfoldable pub is_course_editable : List User → User → Course → Bool
unfolding course_editors
is_course_editable users user course =
    if user.is_staff then true else any (is_user user) (course_editors users course)

-- The test of the two queries that an editor is valid refers to one row of the join with the authoring
-- organizations, here `organization`.
unfoldable pub has_valid_editors : ℕ → Course → Bool
unfolding is_member
has_valid_editors organization course = any (is_member (organization ∷ [])) course.editors

unfoldable pub has_user_editor : User → Course → Bool
has_user_editor user course = any (is_user user) course.editors

-- The filter by editors alone: some row of the join passes, and a course without organizations has one
-- row, with no organization in it.
unfoldable pub user_can_edit : User → Course → Bool
unfolding has_valid_editors has_user_editor
user_can_edit user course =
    has_user_editor user course
    || is_empty course.authoring_organizations
    || any (λ o. not (has_valid_editors o course)) course.authoring_organizations

unfoldable pub is_authored_by : User → Course → Bool
is_authored_by user course = any (λ o. mem o user.user_organizations) course.authoring_organizations

-- Two calls of `filter`, each with its own join.
unfoldable pub editable_courses : User → List Course → Bool → List Course
unfolding user_can_edit is_authored_by
editable_courses user queryset check_editors =
    if user.is_staff
    then queryset
    else let checked = if check_editors then keep (user_can_edit user) queryset else queryset in
      keep (is_authored_by user) checked

-- The conditions stand in one call of `filter`, so that they are about the same row.
unfoldable pub is_editable_through : User → Course → ℕ → Bool
unfolding has_valid_editors has_user_editor
is_editable_through user course organization =
    (has_user_editor user course || not (has_valid_editors organization course))
    && mem organization user.user_organizations

-- The course runs of the queryset, each with its course.
unfoldable pub editable_course_runs {ℓ} :
    {Run : Type ℓ} → (Run → Course) → User → List Run → List Run
unfolding is_editable_through
editable_course_runs course user queryset =
    if user.is_staff
    then queryset
    else keep
        (λ run. any (is_editable_through user (course run)) (course run).authoring_organizations)
        queryset
