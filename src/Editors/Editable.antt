-- ===== src/Editors/Editable.antt =====
-- The queries for editable courses against the test for one course.
use mathlib.Core.List.{Memᴰ}
use course_discovery_ed_uhk.Base.{
  ℕ, ◌≡◌, refl, Bool, true, false, ◌&&◌, ◌||◌, not, List, [], ◌∷◌, arith, if◌then◌else◌, keep, any,
  Bool-cases, inl, inr, is_empty-keep, keep-keep, keep-mem, All,
}
use course_discovery_ed_uhk.Editors.{
  User, Course, mem, is_member, is_user, course_editors, is_course_editable, has_valid_editors,
  has_user_editor, user_can_edit, is_authored_by, editable_courses,
}

-- A row that has the key of `user` is `user`, among the rows of the list.
abbrev pub IsTable : User → List User → Type 0
IsTable user users = All (λ other. is_user user other ≡ true → other ≡ user) users

any-mem :
    (x : ℕ) (xs ys : List ℕ) → any (λ y. mem y (x ∷ xs)) ys ≡ (mem x ys || any (λ y. mem y xs) ys)
any-mem x xs [] = refl
any-mem x xs (y ∷ ys) = ground (arith, any-mem x xs ys)

any-empty : (ys : List ℕ) → any (λ y. mem y []) ys ≡ false
any-empty [] = refl
any-empty (y ∷ ys) = any-empty ys

-- Two lists of keys meet, seen from either.
any-swap : (xs ys : List ℕ) → any (λ x. mem x ys) xs ≡ any (λ y. mem y xs) ys
any-swap [] ys = rw (any-empty ys) refl
any-swap (x ∷ xs) ys = ground (arith, any-mem x xs ys, any-swap xs ys)

any-keep :
    (p : User → Bool) (user : User) (xs : List User)
    → IsTable user xs
    → any (is_user user) (keep p xs) ≡ (p user && any (is_user user) xs)
any-keep p user [] a = ground arith
any-keep p user (x ∷ xs) a = elim (Bool-cases (is_user user x)) [
  | inl e ↦ rw (a.0 e) (ground (arith, any-keep p user xs a.1))
  | inr e ↦ ground (arith, any-keep p user xs a.1, e)
]

-- Some editor of the course is of one of its organizations.
abbrev pub has_editor : Course → Bool
unfolding is_member
has_editor course = any (is_member course.authoring_organizations) course.editors

-- A course can be edited by the staff, by its valid editors, and, where it has none, by the members
-- of its authoring organizations: `users` are all users, and `user` is one of them.
is_course_editable_iff :
    (users : List User) (user : User) (course : Course)
    → any (is_user user) users ≡ true
    → IsTable user users
    → IsTable user course.editors
    → is_course_editable users user course ≡ (
        user.is_staff
        || ((has_user_editor user course || not (has_editor course)) && is_authored_by user course))
unfolding is_course_editable course_editors has_user_editor is_authored_by is_member
is_course_editable_iff users user course present table editors =
    let member : User → Bool = is_member course.authoring_organizations in
    ground (
      arith,
      any-keep member user users table,
      any-keep member user course.editors editors,
      is_empty-keep member course.editors,
      any-swap user.user_organizations course.authoring_organizations,
    )

-- A member of one organization is a member of any list with it.
member_first :
    (o : ℕ) (os : List ℕ) (editors : List User)
    → any (is_member (o ∷ os)) editors ≡ false
    → any (is_member (o ∷ [])) editors ≡ false
unfolding is_member
member_first o os [] h = refl
member_first o os (editor ∷ editors) h = ground (
  arith,
  member_first o os editors,
  any-mem o os editor.user_organizations,
  any-mem o [] editor.user_organizations,
  any-empty editor.user_organizations,
)

-- Without a valid editor, any row passes.
no_editor_passes :
    (user : User) (course : Course) (organizations : List ℕ)
    → course.authoring_organizations ≡ organizations
    → has_editor course ≡ false
    → user_can_edit user course ≡ true
unfolding user_can_edit has_valid_editors has_editor
no_editor_passes user course [] e h = ground (arith, e)
no_editor_passes user course (o ∷ os) e h =
    ground (arith, e, member_first o os course.editors (rw e at h))

editable_passes :
    (users : List User) (user : User) (course : Course)
    → any (is_user user) users ≡ true
    → IsTable user users
    → IsTable user course.editors
    → user.is_staff ≡ false
    → is_course_editable users user course ≡ true
    → (user_can_edit user course ≡ true) × (is_authored_by user course ≡ true)
unfolding user_can_edit
editable_passes users user course present table editors plain h =
    let k = is_course_editable_iff users user course present table editors in
    elim (Bool-cases (has_editor course)) [
      | inl e ↦ (ground (arith, k), ground (arith, k))
      | inr e ↦
          (no_editor_passes user course course.authoring_organizations refl e, ground (arith, k))
    ]

-- A course that the user can edit, by the test for one course, is in the queryset of editable courses,
-- where `users` are all users, and `user` is one of them.
pub editable_courses-mem :
    (users : List User) (user : User) (courses : List Course) (course : Course)
    → any (is_user user) users ≡ true
    → IsTable user users
    → IsTable user course.editors
    → Memᴰ course courses
    → is_course_editable users user course ≡ true
    → Memᴰ course (editable_courses user courses true)
unfolding editable_courses
editable_courses-mem users user courses course present table editors there h =
    elim (Bool-cases user.is_staff) [
      | inl staff ↦ rw staff there
      | inr plain ↦
          let (can, authored) = editable_passes users user course present table editors plain h in
          rw plain (
            keep-mem (is_authored_by user) (keep (user_can_edit user) courses)
              (keep-mem (user_can_edit user) courses there can) authored)
    ]

-- One organization, and the editors of the course are rows of the table of users.
abbrev pub IsOwned : User → Course → Type 0
IsOwned user course =
    ((o : ℕ) × (course.authoring_organizations ≡ o ∷ [])) × IsTable user course.editors

owned_passes :
    (user : User) (course : Course) (o : ℕ)
    → course.authoring_organizations ≡ o ∷ []
    → user_can_edit user course ≡ (has_user_editor user course || not (has_editor course))
unfolding user_can_edit has_valid_editors has_editor
owned_passes user course o e = rw e (ground arith)

keep-editable :
    (users : List User) (user : User) (courses : List Course)
    → any (is_user user) users ≡ true
    → IsTable user users
    → All (IsOwned user) courses
    → user.is_staff ≡ false
    → keep (λ course. user_can_edit user course && is_authored_by user course) courses
      ≡ keep (is_course_editable users user) courses
keep-editable users user [] present table rows e = refl
keep-editable users user (course ∷ courses) present table rows e =
    let ((o, owned), editors) = rows.0 in
    ground (
      arith,
      keep-editable users user courses present table rows.1 e,
      is_course_editable_iff users user course present table editors,
      owned_passes user course o owned,
    )

-- Where each course has exactly one authoring organization, the queryset of editable courses keeps
-- exactly the courses that the user can edit one by one, where `users` are all users, and `user` is
-- one of them.
pub editable_courses-keep :
    (users : List User) (user : User) (courses : List Course)
    → any (is_user user) users ≡ true
    → IsTable user users
    → All (IsOwned user) courses
    → editable_courses user courses true
      ≡ (if user.is_staff then courses else keep (is_course_editable users user) courses)
unfolding editable_courses
editable_courses-keep users user courses present table rows = ground (
  arith,
  keep-keep (user_can_edit user) (is_authored_by user) courses,
  keep-editable users user courses present table rows,
)
