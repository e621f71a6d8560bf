-- ===== src/Examples/Studio.antt =====
-- An example for the name of the next run.
use course_discovery_ed_uhk.Base.{ℕ, ◌≡◌, ◌<◌, true, false, some, List, [], ◌∷◌}
use course_discovery_ed_uhk.Studio.{
  RunName, is_taken, trimester_of, calculate_course_run_key_run_value,
}
use course_discovery_ed_uhk.Studio.Free.{named, calculate_course_run_key_run_value_total}

-- 1T2017b, 1T2017 and 2T2017; the next one in March is 1T2017a.
abbrev runs : List RunName
runs = named 1 2017 2 ∷ named 1 2017 0 ∷ named 2 2017 0 ∷ []

calculate_course_run_key_run_value_total_example :
    (k : ℕ) × ((calculate_course_run_key_run_value 3 2017 runs
        ≡ some (named (trimester_of 3) 2017 k))
      × ((is_taken (named (trimester_of 3) 2017 k) runs ≡ false)
          × ((j : ℕ) → j < k → is_taken (named (trimester_of 3) 2017 j) runs ≡ true)))
calculate_course_run_key_run_value_total_example =
    calculate_course_run_key_run_value_total 3 2017 runs
