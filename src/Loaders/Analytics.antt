-- ===== src/Loaders/Analytics.antt =====
-- AnalyticsAPIDataLoader (course_discovery/apps/course_metadata/data_loaders/analytics_api.py). A dictionary
-- is a list of entries in the order in which their keys came; courses and programs are known by
-- their keys, and which course a run belongs to is a parameter, as is which programs a course is in.
-- A recent change is an integer, kept as what was gained and what was lost.
pub mod Totals
use course_discovery_ed_uhk.Base.{
  ℕ, ◌+◌, String, Bool, Option, none, some, List, [], ◌∷◌, nat_beq, if◌then◌else◌,
}

pub record Change : Type 0 where
  pub gained : ℕ
  pub lost : ℕ

abbrev pub plus : Change → Change → Change
plus a b = record { gained = a.gained + b.gained; lost = a.lost + b.lost }

pub record CourseRunSummary : Type 0 where
  pub course_id : String
  pub count : ℕ
  pub recent_count_change : Change

-- The counts of a course, or of a program.
pub record Entry : Type 0 where
  pub uuid : ℕ
  pub count : ℕ
  pub recent_count : Change

pub record RunCount : Type 0 where
  pub key : String
  pub enrollment_count : ℕ
  pub recent_enrollment_count : Change

-- What is saved of the runs, the last one first, and the two dictionaries, whose entries are saved.
pub record Loaded : Type 0 where
  pub runs : List RunCount
  pub course_dictionary : List Entry
  pub program_dictionary : List Entry

unfoldable pub add_count :
    (uuid : ℕ) → (count : ℕ) → (recent_count : Change) → List Entry → List Entry
add_count uuid count recent_count [] =
    record { uuid = uuid; count = count; recent_count = recent_count } ∷ []
add_count uuid count recent_count (e ∷ es) =
    let rest = add_count uuid count recent_count es in
    if nat_beq e.uuid uuid
    then record e { count = e.count + count; recent_count = plus e.recent_count recent_count } ∷ es
    else e ∷ rest

module _ (course_of : String → Option ℕ) (programs_of : ℕ → List ℕ) where
  abbrev pub add_run : CourseRunSummary → Option ℕ → Loaded → Loaded
  unfolding add_count
  add_run summary none s = s
  add_run summary (some course) s = record s {
    runs =
        record {
          key = summary.course_id;
          enrollment_count = summary.count;
          recent_enrollment_count = summary.recent_count_change;
        }
        ∷ s.runs;
    course_dictionary =
        add_count course summary.count summary.recent_count_change s.course_dictionary;
  }

  unfoldable pub process_course_run_summary : CourseRunSummary → Loaded → Loaded
  unfolding add_run
  process_course_run_summary summary s = add_run summary (course_of summary.course_id) s

  unfoldable pub process_summaries : List CourseRunSummary → Loaded → Loaded
  unfolding process_course_run_summary
  process_summaries [] s = s
  process_summaries (x ∷ xs) s = process_summaries xs (process_course_run_summary x s)

  unfoldable pub add_to_programs :
      (count : ℕ) → (recent_count : Change) → (programs : List ℕ) → List Entry → List Entry
  unfolding add_count
  add_to_programs count recent_count [] es = es
  add_to_programs count recent_count (p ∷ ps) es =
      add_to_programs count recent_count ps (add_count p count recent_count es)

  unfoldable pub process_course_enrollment_count : Entry → List Entry → List Entry
  unfolding add_to_programs
  process_course_enrollment_count e es =
      add_to_programs e.count e.recent_count (programs_of e.uuid) es

  unfoldable pub process_courses : List Entry → List Entry → List Entry
  unfolding process_course_enrollment_count
  process_courses [] es = es
  process_courses (c ∷ cs) es = process_courses cs (process_course_enrollment_count c es)

  unfoldable pub ingest : List CourseRunSummary → Loaded
  unfolding process_summaries process_courses
  ingest summaries =
      let s =
        process_summaries summaries
          (record { runs = []; course_dictionary = []; program_dictionary = [] }) in
      record s { program_dictionary = process_courses s.course_dictionary [] }
