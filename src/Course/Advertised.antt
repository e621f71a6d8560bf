-- ===== src/Course/Advertised.antt =====
-- Course.advertised_course_run (course_discovery/apps/course_metadata/models.py): the run that
-- stands for the course on the marketing site.
pub mod Choice
pub mod Starts
use course_discovery_ed_uhk.Base.{
  ℕ, Bool, ◌&&◌, ◌||◌, not, Option, none, some, List, [], ◌∷◌, if◌then◌else◌, ltb, leb, is_some,
  absent_or, keep, all, first, length, is_empty, sorted, sorted_reverse,
}
use course_discovery_ed_uhk.Run.{CourseRun}
use course_discovery_ed_uhk.Run.Seats.{is_current_and_still_upgradeable, is_upgradeable}
use course_discovery_ed_uhk.Run.Market.{is_marketable}

-- What an attempt to sort gives: Python refuses to compare a date with None.
pub data Outcome {ℓ} (A : Type ℓ) : Type ℓ where
  ok : A → Outcome A
  type_error : Outcome A

pub record Tiers : Type 0 where
  pub tier_one : List CourseRun
  pub tier_two : List CourseRun
  pub tier_three : List CourseRun

abbrev pub has_started : ℕ → CourseRun → Bool
has_started now run = absent_or (λ start. ltb start now) run.start

-- The loop over the marketable runs.
unfoldable pub tiers : ℕ → List CourseRun → Tiers
tiers now [] = record { tier_one = []; tier_two = []; tier_three = [] }
tiers now (run ∷ runs) =
    let t = tiers now runs in
    if is_current_and_still_upgradeable now run
    then record t { tier_one = run ∷ t.tier_one }
    else if not (has_started now run) && is_upgradeable now run
    then record t { tier_two = run ∷ t.tier_two }
    else record t { tier_three = run ∷ t.tier_three }

-- The key `attrgetter('start')`, of a run that has one.
unfoldable pub start_key : CourseRun → ℕ
start_key run = elim run.start [ none ↦ 0 | some start ↦ start ]

-- Sorting compares every element of a list of two or more, and a single one with nothing.
unfoldable pub comparable : List CourseRun → Bool
comparable runs = leb (length runs) 1 || all (λ run. is_some run.start) runs

-- `sorted(tier, key=attrgetter('start'), reverse=True)[0]`, and without `reverse`
latest : List CourseRun → Outcome (Option CourseRun)
unfolding start_key comparable
latest runs = if comparable runs then ok (first (sorted_reverse start_key runs)) else type_error

earliest : List CourseRun → Outcome (Option CourseRun)
unfolding start_key comparable
earliest runs = if comparable runs then ok (first (sorted start_key runs)) else type_error

-- The choice between the tiers; an empty list is false.
choose : Tiers → Outcome (Option CourseRun)
unfolding latest earliest
choose t =
    if not (is_empty t.tier_one)
    then latest t.tier_one
    else if not (is_empty t.tier_two)
    then earliest t.tier_two
    else if not (is_empty t.tier_three)
    then latest t.tier_three
    else ok none

unfoldable pub advertised_course_run : ℕ → List CourseRun → Outcome (Option CourseRun)
unfolding choose tiers
advertised_course_run now course_runs = choose (tiers now (keep is_marketable course_runs))
