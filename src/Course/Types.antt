-- ===== src/Course/Types.antt =====
-- calculate_course_type (course_discovery/apps/course_metadata/data_loaders/course_type.py): the type
-- of a course and of its runs, by their entitlements and seats. Types and modes are known by their
-- keys, and `Types` is what the tables say of them. The messages of the log are left out.
pub mod Fits
pub mod Runs
pub mod Complete
pub mod Fitted
pub mod Idempotent
use course_discovery_ed_uhk.Base.{
  ℕ, String, Bool, true, false, ◌&&◌, ◌||◌, not, Option, none, some, List, [], ◌∷◌, nat_beq, ◌==◌,
  string_eq, if◌then◌else◌, keep, any, all, is_empty, first,
}

-- The rows of CourseType and CourseRunType. The lists of run types, that of a course type's own and
-- that of all, are in the order of their creation.
pub record Types : Type 0 where
  pub entitlement_types : ℕ → List ℕ
  pub course_run_types : ℕ → List ℕ
  pub course_type_slug : ℕ → String
  pub is_empty_course_type : ℕ → Bool
  pub seat_types : ℕ → List (Option String)
  pub run_type_slug : ℕ → String
  pub is_empty_run_type : ℕ → Bool
  pub all_run_types : List ℕ

pub record TypedRun : Type 0 where
  pub type : ℕ
  pub seats : List String

-- `course_runs` in the order of their keys
pub record TypedCourse : Type 0 where
  pub type : ℕ
  pub entitlements : List ℕ
  pub course_runs : List TypedRun

abbrev pub mem : ℕ → List ℕ → Bool
mem key keys = any (nat_beq key) keys

-- Equality of two sets of keys, and of a set of seat types with a set that may hold None.
abbrev pub same_modes : List ℕ → List ℕ → Bool
same_modes xs ys = all (λ x. mem x ys) xs && all (λ y. mem y xs) ys

abbrev pub is_slug : String → Option String → Bool
is_slug slug none = false
is_slug slug (some s) = s == slug

abbrev pub is_seat : List String → Option String → Bool
is_seat seats none = false
is_seat seats (some slug) = any (λ s. s == slug) seats

-- `_is_matching_run_type`
unfoldable pub is_matching_run_type : Types → TypedRun → ℕ → Bool
is_matching_run_type types run run_type =
    all (λ slug. any (is_slug slug) (types.seat_types run_type)) run.seats
    && all (is_seat run.seats) (types.seat_types run_type)

-- `_do_entitlements_match`
unfoldable pub do_entitlements_match : Types → TypedCourse → ℕ → Bool
do_entitlements_match types course course_type =
    let mismatched_entitlements =
      not (is_empty course.entitlements)
      && not (same_modes course.entitlements (types.entitlement_types course_type)) in
    let mismatched_existing_course_type =
      not (types.is_empty_course_type course.type) && not (nat_beq course.type course_type) in
    not (mismatched_entitlements || mismatched_existing_course_type)

-- `mismatches[course_type.slug]`, where it is there
abbrev pub allowed : List (String × List String) → String → List String
allowed [] slug = []
allowed ((s, slugs) ∷ mismatches) slug = if s == slug then slugs else allowed mismatches slug

-- The run types that the runs of a course of the type may have.
unfoldable pub allowed_run_types : Types → List (String × List String) → ℕ → List ℕ
allowed_run_types types mismatches course_type =
    let slugs = allowed mismatches (types.course_type_slug course_type) in
    let own = types.course_run_types course_type in
    if is_empty slugs
    then own
    else keep (λ t. mem t own || any (λ s. s == types.run_type_slug t) slugs) types.all_run_types

-- The loop's body for one run: the run with its match, or none where the type is skipped.
unfoldable pub match_run : Types → List ℕ → TypedRun → Option TypedRun
unfolding is_matching_run_type
match_run types run_types run =
    if types.is_empty_run_type run.type
    then elim (first (keep (is_matching_run_type types run) run_types)) [
      | none ↦ none
      | some run_type ↦ some (record run { type = run_type })
    ]
    else if not (mem run.type run_types)
    then none
    else if is_matching_run_type types run run.type
    then some run
    else none

unfoldable pub match_runs : Types → List ℕ → List TypedRun → Option (List TypedRun)
unfolding match_run
match_runs types run_types [] = some []
match_runs types run_types (run ∷ runs) = elim (match_run types run_types run) [
  | none ↦ none
  | some run' ↦ elim (match_runs types run_types runs) [
    | none ↦ none
    | some runs' ↦ some (run' ∷ runs')
  ]
]

-- `_match_course_type` with `commit`, where the rows can be saved: the course with its types.
unfoldable pub match_course_type :
    Types → List (String × List String) → TypedCourse → ℕ → Option TypedCourse
unfolding do_entitlements_match allowed_run_types match_runs
match_course_type types mismatches course course_type =
    if not (do_entitlements_match types course course_type)
    then none
    else elim (match_runs types (allowed_run_types types mismatches course_type)
        course.course_runs) [
          | none ↦ none
          | some runs ↦ some (record course {
            type = if types.is_empty_course_type course.type then course_type else course.type;
            course_runs = runs;
          })
        ]

-- `calculate_course_type` with `commit`: the course afterwards, and whether a type matched. The
-- course types are in the order of their creation.
unfoldable pub calculate_course_type :
    Types → List (String × List String) → List ℕ → TypedCourse → TypedCourse × Bool
unfolding match_course_type
calculate_course_type types mismatches [] course = (course, false)
calculate_course_type types mismatches (course_type ∷ course_types) course =
    let rest = calculate_course_type types mismatches course_types course in
    elim (match_course_type types mismatches course course_type) [
      | none ↦ rest
      | some course' ↦ (course', true)
    ]

-- Without `commit` nothing is saved.
unfoldable pub check_course_type :
    Types → List (String × List String) → List ℕ → TypedCourse → TypedCourse × Bool
unfolding calculate_course_type
check_course_type types mismatches course_types course =
    (course, (calculate_course_type types mismatches course_types course).1)

-- The loop of backpopulate (course_discovery/apps/course_metadata/management/commands/
-- backpopulate_course_type.py): the courses afterwards, and the keys of those that failed.
unfoldable pub backpopulate :
    Types
    → List (String × List String)
    → List ℕ
    → Bool
    → List (ℕ × TypedCourse)
    → List (ℕ × TypedCourse) × List ℕ
unfolding calculate_course_type check_course_type
backpopulate types mismatches course_types commit [] = ([], [])
backpopulate types mismatches course_types commit ((id, course) ∷ courses) =
    let (done, failures) = backpopulate types mismatches course_types commit courses in
    let (course', matched) =
      if commit
      then calculate_course_type types mismatches course_types course
      else check_course_type types mismatches course_types course in
    ((id, course') ∷ done, if matched then failures else id ∷ failures)
