-- ===== src/Loaders/Ecommerce/Ingest.antt =====
-- The ingest of EcommerceApiDataLoader, its attempts and its pages
-- (course_discovery/apps/course_metadata/data_loaders/api.py), where the loader is not thread safe.
-- What ecommerce answers to the requests of an attempt is a parameter. Of the type upgrades, a
-- save that fails is left out, as in Course/Types.
use course_discovery_ed_uhk.Base.{
  ℕ, ◌+◌, String, Bool, false, ◌&&◌, ◌||◌, not, Option, none, some, List, [], ◌∷◌, ◌==◌, string_eq,
  if◌then◌else◌, any, keep, map, is_empty, nat_beq, length,
}
use course_discovery_ed_uhk.Course.Types.{Types, TypedRun, TypedCourse, calculate_course_type}
use course_discovery_ed_uhk.Loaders.Ecommerce.{
  CourseRunBody, EntitlementBody, EnrollmentCodeBody, Run, Course, Catalog, State, Call, returned,
  raised, and_then, for_each, with_failure,
}
use course_discovery_ed_uhk.Loaders.Ecommerce.Seats.{update_seats}
use course_discovery_ed_uhk.Loaders.Ecommerce.Entitlements.{
  update_entitlement, update_enrollment_code, delete_entitlements,
}

-- The future of a later page: its results, an OSError with what the second request comes to, or
-- another exception.
pub data Future {ℓ} (A : Type ℓ) : Type ℓ where
  result : List A → Future A
  os_error : Option (List A) → Future A
  other_error : Future A

-- The answers on one kind of product: the first page, which may fail, and the later ones.
pub record Answers {ℓ} (A : Type ℓ) : Type ℓ where
  pub count : ℕ
  pub first_page : Option (List A)
  pub pages : List (Future A)

pub record Attempt : Type 0 where
  pub course_runs : Answers CourseRunBody
  pub entitlements : Answers EntitlementBody
  pub enrollment_codes : Answers EnrollmentCodeBody

unfoldable pub process_course_runs : Catalog → List CourseRunBody → State → Call
process_course_runs catalog results s =
    for_each (update_seats catalog) results
      (record s { course_run_count = s.course_run_count + length results })

unfoldable pub process_entitlements : Catalog → ℕ → List EntitlementBody → State → Call
process_entitlements catalog partner results s =
    for_each (update_entitlement catalog partner) results
      (record s { entitlement_count = s.entitlement_count + length results })

unfoldable pub process_enrollment_codes : Catalog → List EnrollmentCodeBody → State → Call
process_enrollment_codes catalog results s =
    for_each (update_enrollment_code catalog) results
      (record s { enrollment_code_count = s.enrollment_code_count + length results })

-- `_check_future_and_process`
unfoldable pub check_future_and_process {ℓ} :
    {A : Type ℓ} → (List A → State → Call) → Future A → State → Call
check_future_and_process process (result results) s = process results s
check_future_and_process process (os_error (some results)) s = process results s
check_future_and_process process (os_error none) s = raised s
check_future_and_process process other_error s = returned (with_failure s)

-- The counts and the SKUs start anew.
unfoldable pub reset : State → State
reset s = record s {
  entitlement_skus = [];
  enrollment_skus = [];
  processing_failure_occurred = false;
  course_run_count = 0;
  entitlement_count = 0;
  enrollment_code_count = 0;
}

-- The pages in the order in which they are processed.
unfoldable pub process_pages : Catalog → ℕ → Attempt → State → Call
unfolding process_course_runs process_entitlements process_enrollment_codes check_future_and_process
process_pages catalog partner attempt s = elim attempt.course_runs.first_page [
  | none ↦ raised s
  | some course_runs ↦ elim attempt.entitlements.first_page [
    | none ↦ raised s
    | some entitlements ↦ elim attempt.enrollment_codes.first_page [
      | none ↦ raised s
      | some enrollment_codes ↦ and_then (process_course_runs catalog course_runs (reset s)) (λ s1.
          and_then (process_entitlements catalog partner entitlements s1) (λ s2.
            and_then (process_enrollment_codes catalog enrollment_codes s2) (λ s3.
              and_then
                (for_each (check_future_and_process (process_course_runs catalog))
                  attempt.course_runs.pages s3)
                (λ s4.
                  and_then
                    (for_each (check_future_and_process (process_entitlements catalog partner))
                      attempt.entitlements.pages s4)
                    (λ s5.
                      for_each (check_future_and_process (process_enrollment_codes catalog))
                        attempt.enrollment_codes.pages s5)))))
    ]
  ]
]

-- A course as calculate_course_type reads it.
unfoldable pub typed_course : State → Course → TypedCourse
typed_course s course = record {
  type = course.type;
  entitlements = map (λ e. e.mode) (keep (λ e. e.course == course.uuid) s.entitlements);
  course_runs =
      map (λ run. record { type = run.type; seats = map (λ seat. seat.type) run.seats })
        (keep (λ run. run.course == course.uuid) s.runs);
}

-- `has_empty_type`
unfoldable pub has_empty_type : Types → TypedCourse → Bool
has_empty_type types course =
    (types.is_empty_course_type course.type
      && any (λ run. not (is_empty run.seats)) course.course_runs)
    || any (λ run. types.is_empty_run_type run.type && not (is_empty run.seats)) course.course_runs

-- The runs of the course take the types of the typed runs, one by one.
unfoldable pub save_run_types : String → List TypedRun → List Run → List Run
save_run_types uuid typed [] = []
save_run_types uuid [] (run ∷ runs) = run ∷ runs
save_run_types uuid (t ∷ typed) (run ∷ runs) =
    if run.course == uuid
    then (record run { type = t.type }) ∷ save_run_types uuid typed runs
    else run ∷ save_run_types uuid (t ∷ typed) runs

unfoldable pub save_types : String → TypedCourse → State → State
unfolding save_run_types
save_types uuid typed s = record s {
  courses =
      map (λ course. if course.uuid == uuid then record course { type = typed.type } else course)
        s.courses;
  runs = save_run_types uuid typed.course_runs s.runs;
}

-- The loop over the courses that have an empty type.
unfoldable pub upgrade_course : Catalog → Course → State → Call
unfolding save_types
upgrade_course catalog course s =
    let (typed, matched) =
      calculate_course_type catalog.types [] catalog.course_types (typed_course s course) in
    if not (has_empty_type catalog.types (typed_course s course))
    then returned s
    else if matched
    then returned (save_types course.uuid typed s)
    else returned (with_failure s)

unfoldable pub upgrade_drafts : Catalog → List TypedCourse → List TypedCourse × Bool
upgrade_drafts catalog [] = ([], false)
upgrade_drafts catalog (course ∷ courses) =
    let (rest, failed) = upgrade_drafts catalog courses in
    let (typed, matched) = calculate_course_type catalog.types [] catalog.course_types course in
    if has_empty_type catalog.types course
    then (typed ∷ rest, failed || not matched)
    else (course ∷ rest, failed)

unfoldable pub upgrade_types : Catalog → State → Call
unfolding upgrade_course upgrade_drafts
upgrade_types catalog s =
    let (drafts, failed) = upgrade_drafts catalog s.draft_courses in
    for_each (upgrade_course catalog) s.courses (record s {
      draft_courses = drafts;
      processing_failure_occurred = s.processing_failure_occurred || failed;
    })

-- The expected counts against the received ones.
unfoldable pub check_counts : Attempt → State → State
check_counts attempt s =
    if nat_beq s.course_run_count attempt.course_runs.count
      && nat_beq s.entitlement_count attempt.entitlements.count
      && nat_beq s.enrollment_code_count attempt.enrollment_codes.count
    then s
    else with_failure s

-- `_load_ecommerce_data`
unfoldable pub load_ecommerce_data : Catalog → ℕ → Attempt → State → Call
unfolding process_pages upgrade_types check_counts
load_ecommerce_data catalog partner attempt s =
    and_then (process_pages catalog partner attempt s)
      (λ s'. and_then (upgrade_types catalog s') (λ s''. returned (check_counts attempt s'')))

-- One turn of the loop that does not fail deletes; the second one that fails raises CommandError.
unfoldable pub ingest : Catalog → ℕ → (first second : Attempt) → State → Call
unfolding load_ecommerce_data
ingest catalog partner first second s =
    and_then (load_ecommerce_data catalog partner first s) (λ s'.
      if not s'.processing_failure_occurred
      then returned (delete_entitlements catalog partner s')
      else and_then (load_ecommerce_data catalog partner second s') (λ s''.
        if s''.processing_failure_occurred
        then raised s''
        else returned (delete_entitlements catalog partner s'')))
