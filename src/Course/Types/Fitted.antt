-- ===== src/Course/Types/Fitted.antt =====
-- The types that a match gives to a course and to its runs (_match_course_type in
-- course_discovery/apps/course_metadata/data_loaders/course_type.py).
use course_discovery_ed_uhk.Base.{
  ℕ, String, ◌≡◌, subst, true, false, some, List, [], ◌∷◌, if◌then◌else◌,
}
use course_discovery_ed_uhk.Course.Types.{
  Types, TypedRun, TypedCourse, mem, allowed_run_types, match_runs,
}
use course_discovery_ed_uhk.Course.Types.Fits.{
  HasModes, KeepsType, HasTracks, IsAllowed, is_matching_run_type-HasTracks,
  allowed_run_types-IsAllowed,
}
use course_discovery_ed_uhk.Course.Types.Complete.{Fits}
use course_discovery_ed_uhk.Course.Types.Runs.{IsMatch, match_run-IsMatch, match_runs-cons}

-- A run keeps its seats, and its type where this is not empty; the type that it has then is allowed
-- for the course type and fits the seats.
pub record IsFitted (types : Types) (mismatches : List (String × List String)) (t : ℕ)
    (run run' : TypedRun) : Type 0 where
  pub seats : run'.seats ≡ run.seats
  pub kept : types.is_empty_run_type run.type ≡ false → run' ≡ run
  pub allowed : IsAllowed types mismatches t run'.type
  pub tracks : HasTracks types run run'.type

abbrev pub AreFitted :
    Types → List (String × List String) → ℕ → List TypedRun → List TypedRun → Type 0
AreFitted types mismatches t [] [] = Unit
AreFitted types mismatches t (run ∷ runs) (run' ∷ runs') =
    IsFitted types mismatches t run run' × AreFitted types mismatches t runs runs'
AreFitted types mismatches t [] (_ ∷ _) = ⊥
AreFitted types mismatches t (_ ∷ _) [] = ⊥

abbrev pub NoneFits : Types → List ℕ → TypedCourse → Type 0
NoneFits types course_types course = (t : ℕ) → mem t course_types ≡ true → Fits types t course → ⊥

-- What a match with a course type makes of a course.
pub record IsTyped (types : Types) (mismatches : List (String × List String)) (t : ℕ)
    (course course' : TypedCourse) : Type 0 where
  pub entitlements : course'.entitlements ≡ course.entitlements
  pub modes : HasModes types t course
  pub keeps : KeepsType types t course
  pub type : course'.type ≡ (if types.is_empty_course_type course.type then t else course.type)
  pub runs : AreFitted types mismatches t course.course_runs course'.course_runs

pub IsMatch-IsFitted :
    (types : Types) (mismatches : List (String × List String)) (t : ℕ) (run run' : TypedRun)
    → IsMatch types (allowed_run_types types mismatches t) run run'
    → IsFitted types mismatches t run run'
IsMatch-IsFitted types mismatches t run run' k = record {
  seats = k.seats;
  kept = k.kept;
  allowed = allowed_run_types-IsAllowed types mismatches t run'.type k.listed;
  tracks = is_matching_run_type-HasTracks types run run'.type k.matching;
}

pub match_runs-AreFitted :
    (types : Types) (mismatches : List (String × List String)) (t : ℕ) (runs runs' : List TypedRun)
    → match_runs types (allowed_run_types types mismatches t) runs ≡ some runs'
    → AreFitted types mismatches t runs runs'
unfolding match_runs
match_runs-AreFitted types mismatches t [] runs' h =
    let q : [] ≡ runs' = cc h in subst (AreFitted types mismatches t []) q tt
match_runs-AreFitted types mismatches t (run ∷ runs) runs' h =
    let run_types = allowed_run_types types mismatches t in
    let (run', (rest, (a, (b, q)))) = match_runs-cons types run_types run runs runs' h in
    subst (AreFitted types mismatches t (run ∷ runs)) q (
      IsMatch-IsFitted types mismatches t run run' (match_run-IsMatch types run_types run run' a),
      match_runs-AreFitted types mismatches t runs rest b,
    )
