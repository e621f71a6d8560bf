-- ===== src/Studio.antt =====
-- StudioAPI._get_next_run and calculate_course_run_key_run_value (course_discovery/apps/api/utils.py).
-- The name of a run is a trimester, a year and a suffix, as in 1T2017a: suffix 0 is none, and suffix
-- k + 1 is the character with the code of `a` plus k. A run with another kind of name is no candidate,
-- and is left out of the related runs. The recursion of the code has no bound and runs on fuel.
pub mod Free
pub mod Requests
use course_discovery_ed_uhk.Base.{
  ℕ, zero, suc, ◌+◌, ◌/◌, Bool, ◌&&◌, Option, none, some, List, any, nat_beq, if◌then◌else◌, map,
  length,
}

pub record RunName : Type 0 where
  pub trimester : ℕ
  pub year : ℕ
  pub suffix : ℕ

abbrev pub same_name : RunName → RunName → Bool
same_name a b =
    nat_beq a.trimester b.trimester && nat_beq a.year b.year && nat_beq a.suffix b.suffix

-- `candidate in existing_runs`
abbrev pub is_taken : RunName → List RunName → Bool
is_taken candidate existing_runs = any (same_name candidate) existing_runs

unfoldable pub get_next_run : (fuel : ℕ) → RunName → List RunName → Option RunName
get_next_run zero candidate existing_runs = none
get_next_run (suc fuel) candidate existing_runs =
    let next =
      get_next_run fuel (record candidate { suffix = candidate.suffix + 1 }) existing_runs in
    if is_taken candidate existing_runs then next else some candidate

-- `math.ceil(start.month / 4.)`
abbrev pub trimester_of : ℕ → ℕ
trimester_of month = (month + 3) / 4

-- One more turn than there are related runs is enough.
unfoldable pub calculate_course_run_key_run_value : (month year : ℕ) → List RunName → Option RunName
unfolding get_next_run
calculate_course_run_key_run_value month year related_course_runs =
    get_next_run (length related_course_runs + 1)
      (record { trimester = trimester_of month; year = year; suffix = 0 }) related_course_runs
