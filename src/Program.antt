-- ===== src/Program.antt =====
-- Program (course_discovery/apps/course_metadata/models.py): its course runs, the weeks to complete,
-- one-click purchase, and the total price by currency. Currencies are their codes, courses their
-- uuids as numbers.
pub mod Prices
use course_discovery_ed_uhk.Base.{
  ℕ, ◌+◌, String, Bool, true, false, ◌&&◌, ◌||◌, not, Option, none, some, List, [], ◌∷◌, ◌++◌, map,
  nat_beq, ◌==◌, string_eq, ltb, if◌then◌else◌, keep, any, all, is_empty, length, absent_or,
  present_and,
}
use course_discovery_ed_uhk.Run.{Seat, CourseRun, published, status_eq}
use course_discovery_ed_uhk.Run.Dates.{has_ended}
use course_discovery_ed_uhk.Run.Seats.{enrollable_seats}

pub record CourseEntitlement : Type 0 where
  pub id : ℕ
  pub course : ℕ
  pub mode : String
  pub price : ℕ
  pub currency : String

-- A canonical run, and the course that it is a run of.
pub record CanonicalRun : Type 0 where
  pub course : ℕ
  pub run : CourseRun

pub record Course : Type 0 where
  pub canonical_course_run : Option CanonicalRun
  pub course_runs : List CourseRun
  pub entitlements : List CourseEntitlement

pub record Program : Type 0 where
  pub one_click_purchase_enabled : Bool
  pub applicable_seat_types : List String
  pub excluded_course_runs : List ℕ
  pub courses : List Course

abbrev pub has_type : List String → String → Bool
has_type types slug = any (λ t. t == slug) types

-- The course runs of the courses that are not excluded.
unfoldable pub canonical_course_runs : List ℕ → List Course → List CanonicalRun
canonical_course_runs excluded [] = []
canonical_course_runs excluded (course ∷ courses) =
    let rest = canonical_course_runs excluded courses in
    elim course.canonical_course_run [
      | none ↦ rest
      | some canonical ↦ if any (nat_beq canonical.run.id) excluded then rest else canonical ∷ rest
    ]

-- `_course_run_weeks_to_complete`, `weeks_to_complete_min` and `weeks_to_complete_max`
unfoldable pub course_run_weeks_to_complete : List CanonicalRun → List ℕ
course_run_weeks_to_complete [] = []
course_run_weeks_to_complete (canonical ∷ runs) =
    let rest = course_run_weeks_to_complete runs in
    elim canonical.run.weeks_to_complete [ none ↦ rest | some weeks ↦ weeks ∷ rest ]

unfoldable pub minimum : List ℕ → Option ℕ
minimum [] = none
minimum (x ∷ xs) =
    let rest = minimum xs in elim rest [ none ↦ some x | some m ↦ some (if ltb m x then m else x) ]

unfoldable pub maximum : List ℕ → Option ℕ
maximum [] = none
maximum (x ∷ xs) =
    let rest = maximum xs in elim rest [ none ↦ some x | some m ↦ some (if ltb x m then m else x) ]

unfoldable pub weeks_to_complete_min : Program → Option ℕ
unfolding canonical_course_runs course_run_weeks_to_complete minimum
weeks_to_complete_min program = minimum (
    course_run_weeks_to_complete
      (canonical_course_runs program.excluded_course_runs program.courses))

unfoldable pub weeks_to_complete_max : Program → Option ℕ
unfolding canonical_course_runs course_run_weeks_to_complete maximum
weeks_to_complete_max program = maximum (
    course_run_weeks_to_complete
      (canonical_course_runs program.excluded_course_runs program.courses))

-- One course in the loop of `is_program_eligible_for_one_click_purchase`.
unfoldable pub is_one_click_course : (all_types : List String) → ℕ → Program → Course → Bool
unfolding enrollable_seats
is_one_click_course all_types now program course =
    let entitlement_products =
      keep (λ entitlement. has_type program.applicable_seat_types entitlement.mode)
        course.entitlements in
    let course_runs =
      keep
        (λ run.
          (run.status == published) && not (any (nat_beq run.id) program.excluded_course_runs))
        course.course_runs in
    if nat_beq (length entitlement_products) 1 then true else elim course_runs [
      | [] ↦ false
      | run ∷ runs ↦
          is_empty runs
          && not (is_empty (enrollable_seats all_types now program.applicable_seat_types run))
    ]

unfoldable pub is_program_eligible_for_one_click_purchase :
    (all_types : List String) → ℕ → Program → Bool
unfolding is_one_click_course
is_program_eligible_for_one_click_purchase all_types now program =
    if not program.one_click_purchase_enabled
    then false
    else all (is_one_click_course all_types now program) program.courses

-- A seat with its course run and the course of that.
pub record CourseSeat : Type 0 where
  pub course : ℕ
  pub run : CourseRun
  pub seat : Seat

-- `canonical_seats`
unfoldable pub canonical_seats : List String → List CanonicalRun → List CourseSeat
canonical_seats types [] = []
canonical_seats types (canonical ∷ runs) =
    map (λ seat. record { course = canonical.course; run = canonical.run; seat = seat })
      (keep (λ seat. has_type types seat.type) canonical.run.seats)
    ++ canonical_seats types runs

unfoldable pub entitlements : Program → List Course → List CourseEntitlement
entitlements program [] = []
entitlements program (course ∷ courses) =
    keep (λ entitlement. has_type program.applicable_seat_types entitlement.mode)
      course.entitlements
    ++ entitlements program courses

-- `_select_for_total_price`; the earliest moment of `datetime` is 0.
unfoldable pub select_for_total_price : ℕ → CourseSeat → CourseSeat → Bool
unfolding has_ended
select_for_total_price now selected_seat candidate_seat =
    let end_valid = not (has_ended now none candidate_seat.run) in
    let selected_enrollment_start : ℕ = elim selected_seat.run.enrollment_start [
      | none ↦ 0
      | some start ↦ start
    ] in
    let enrollment_start_valid =
      absent_or (λ start. ltb selected_enrollment_start start && ltb start now)
        candidate_seat.run.enrollment_start in
    end_valid && enrollment_start_valid
