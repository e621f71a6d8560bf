-- ===== src/Signals/ExternalKeys.antt =====
-- The receivers that keep external keys unique (course_discovery/apps/course_metadata/signals.py).
-- The tables are the course runs, the courses of the curricula, and the courses that are drafts;
-- courses, curricula and programs are known by their keys.
pub mod Unique
use course_discovery_ed_uhk.Base.{
  ℕ, String, Bool, true, false, ◌&&◌, ◌||◌, not, Option, none, some, List, [], ◌∷◌, nat_beq, ◌==◌,
  string_eq, if◌then◌else◌, keep, any, first, is_empty, is_some, present_and,
}
use course_discovery_ed_uhk.Signals.{mem}

-- A course run; one that is not saved yet has no key `id`.
pub record Run : Type 0 where
  pub id : Option ℕ
  pub external_key : Option String
  pub draft : Bool
  pub course : ℕ

-- A course in a curriculum, and the program of that.
pub record Membership : Type 0 where
  pub course : ℕ
  pub curriculum : ℕ
  pub program : Option ℕ

pub record Tables : Type 0 where
  pub runs : List Run
  pub memberships : List Membership
  pub draft_courses : List ℕ

pub data Outcome : Type 0 where
  saved validation_error does_not_exist : Outcome

-- An external key is false if it is None or empty.
abbrev pub has_key : Run → Bool
has_key run = present_and (λ key. not (key == "")) run.external_key

abbrev pub same_key : Run → Run → Bool
same_key run other = elim run.external_key [
  | none ↦ not (is_some other.external_key)
  | some key ↦ present_and (λ k. k == key) other.external_key
]

-- Rows are equal where both are saved and have one key; an unsaved one equals no other.
abbrev pub same_run : Run → Run → Bool
same_run run other = elim run.id [
  | none ↦ false
  | some id ↦ present_and (λ i. nat_beq i id) other.id
]

-- `external_key_set` and `course_run_ids` of _build_external_key_sets, as tests for membership
unfoldable pub in_external_key_set : List Run → Run → Bool
in_external_key_set course_runs run = any (λ r. has_key r && same_key r run) course_runs

unfoldable pub in_course_run_ids : List Run → Run → Bool
in_course_run_ids course_runs run = any (λ r. same_run r run) course_runs

-- Whether one of the curricula is `membership`'s, or its program is.
unfoldable pub is_related : List Membership → Membership → Bool
is_related curricula membership =
    any
      (λ c. elim c.program [
        | none ↦ nat_beq membership.curriculum c.curriculum
        | some program ↦ present_and (λ p. nat_beq p program) membership.program
      ])
      curricula

-- `CourseRun.objects` hides the drafts.
unfoldable pub is_duplicate : Tables → List Membership → List Run → Run → Bool
unfolding in_external_key_set in_course_run_ids is_related
is_duplicate tables curricula course_runs run =
    not run.draft
    && not (in_course_run_ids course_runs run)
    && in_external_key_set course_runs run
    && any (λ m. nat_beq m.course run.course && is_related curricula m) tables.memberships

unfoldable pub check_curricula_and_related_programs_for_duplicate_external_key :
    Tables → List Membership → List Run → Outcome
unfolding is_duplicate
check_curricula_and_related_programs_for_duplicate_external_key tables curricula course_runs =
    if is_empty (keep (is_duplicate tables curricula course_runs) tables.runs)
    then saved
    else validation_error

unfoldable pub check_course_runs_within_course_for_duplicate_external_key : List Run → Run → Outcome
check_course_runs_within_course_for_duplicate_external_key [] specific = saved
check_course_runs_within_course_for_duplicate_external_key (run ∷ runs) specific =
    let rest = check_course_runs_within_course_for_duplicate_external_key runs specific in
    if same_key specific run && not (same_run specific run) then validation_error else rest

-- `course.degree_course_curricula`
abbrev pub curricula_of : Tables → ℕ → List Membership
curricula_of tables course = keep (λ m. nat_beq m.course course) tables.memberships

-- The last part of the receiver, where the key is to be looked for.
unfoldable pub check_course_run : Tables → Run → Outcome
unfolding check_course_runs_within_course_for_duplicate_external_key
    check_curricula_and_related_programs_for_duplicate_external_key
check_course_run tables run =
    let curricula = curricula_of tables run.course in
    if is_empty curricula
    then check_course_runs_within_course_for_duplicate_external_key
        (keep (λ r. nat_beq r.course run.course) tables.runs) run
    else check_curricula_and_related_programs_for_duplicate_external_key tables curricula (run ∷ [])

-- The first row with the key of the run, if it is saved.
abbrev pub old_course_run : Tables → Run → Option Run
old_course_run tables run = first (keep (same_run run) tables.runs)

unfoldable pub ensure_external_key_uniqueness__course_run : Tables → Run → Outcome
unfolding check_course_run
ensure_external_key_uniqueness__course_run tables run =
    if not (has_key run)
    then saved
    else if not run.draft && mem run.course tables.draft_courses
    then saved
    else if is_some run.id
    then elim (old_course_run tables run) [
      | none ↦ does_not_exist
      | some old ↦
          if same_key run old && nat_beq run.course old.course
          then saved
          else check_course_run tables run
    ]
    else check_course_run tables run

unfoldable pub ensure_external_key_uniqueness__curriculum_course_membership :
    Tables → Membership → Outcome
unfolding check_curricula_and_related_programs_for_duplicate_external_key
ensure_external_key_uniqueness__curriculum_course_membership tables membership =
    check_curricula_and_related_programs_for_duplicate_external_key tables (membership ∷ [])
      (keep (λ r. nat_beq r.course membership.course && is_some r.external_key) tables.runs)

-- The official runs of the courses in a curriculum, with a key that is not null.
abbrev pub runs_of_curriculum : Tables → ℕ → List Run
runs_of_curriculum tables curriculum =
    keep
      (λ r.
        not r.draft
        && is_some r.external_key
        && any (λ m. nat_beq m.course r.course && nat_beq m.curriculum curriculum)
            tables.memberships)
      tables.runs

-- Of the curriculum only its key and its program count; no course of it is looked at.
unfoldable pub check_curriculum : Tables → (id : ℕ) → (program : Option ℕ) → Outcome
unfolding check_curricula_and_related_programs_for_duplicate_external_key
check_curriculum tables id program =
    check_curricula_and_related_programs_for_duplicate_external_key tables
      (record { course = 0; curriculum = id; program = program } ∷ [])
      (runs_of_curriculum tables id)

-- `old_program` is the program in the row of the curriculum, if that is there.
unfoldable pub ensure_external_key_uniqueness__curriculum :
    Tables → (id : Option ℕ) → (program : Option ℕ) → (old_program : Option (Option ℕ)) → Outcome
unfolding check_curriculum
ensure_external_key_uniqueness__curriculum tables none program old_program = saved
ensure_external_key_uniqueness__curriculum tables (some id) none old_program =
    check_curriculum tables id none
ensure_external_key_uniqueness__curriculum tables (some id) (some program) none = does_not_exist
ensure_external_key_uniqueness__curriculum tables (some id) (some program) (some none) =
    check_curriculum tables id (some program)
ensure_external_key_uniqueness__curriculum tables (some id) (some program) (some (some old)) =
    if nat_beq program old then saved else check_curriculum tables id (some program)
