-- ===== src/Examples/Analytics.antt =====
-- An example for the counts of enrollments.
use course_discovery_ed_uhk.Base.{
  ℕ, String, ◌≡◌, refl, Option, none, some, List, [], ◌∷◌, ◌==◌, string_eq, if◌then◌else◌,
}
use course_discovery_ed_uhk.Loaders.Analytics.{CourseRunSummary, ingest}
use course_discovery_ed_uhk.Loaders.Analytics.Totals.{count_of, total, course_total, ingest-totals}

-- Two runs of course 1 and one of course 2; both courses are in program 7.
abbrev course_of : String → Option ℕ
course_of key = if key == "b" then some 2 else if key == "x" then none else some 1

abbrev programs_of : ℕ → List ℕ
programs_of course = 7 ∷ []

abbrev summary : String → ℕ → CourseRunSummary
summary key count = record {
  course_id = key;
  count = count;
  recent_count_change = record { gained = 1; lost = 0 };
}

abbrev summaries : List CourseRunSummary
summaries = summary "a" 10 ∷ summary "b" 5 ∷ summary "x" 99 ∷ summary "c" 20 ∷ []

ingest-totals_example :
    (count_of 7 (ingest course_of programs_of summaries).program_dictionary
      ≡ total course_of programs_of 7 summaries)
    × (count_of 1 (ingest course_of programs_of summaries).course_dictionary
        ≡ course_total course_of programs_of 1 summaries)
ingest-totals_example = ingest-totals course_of programs_of 7 1 summaries

thirty_five : count_of 7 (ingest course_of programs_of summaries).program_dictionary ≡ 35
unfolding ingest
thirty_five = refl
