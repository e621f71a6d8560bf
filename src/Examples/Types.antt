-- ===== src/Examples/Types.antt =====
-- Examples for the types of a course and its runs.
use course_discovery_ed_uhk.Base.{
  ℕ, String, ◌≡◌, ◌⊎◌, true, false, some, List, [], ◌∷◌, nat_beq, if◌then◌else◌,
}
use course_discovery_ed_uhk.Run.{audit, verified}
use course_discovery_ed_uhk.Course.Types.{Types, TypedCourse, mem, calculate_course_type}
use course_discovery_ed_uhk.Course.Types.Fitted.{IsTyped, NoneFits}
use course_discovery_ed_uhk.Course.Types.Idempotent.{
  calculate_course_type_idem, calculate_course_type_lem,
}

-- Type 0 is the empty one, 1 is audit only, and 2 is verified and audit.
abbrev pub types : Types
types = record {
  entitlement_types = λ t. if nat_beq t 2 then 1 ∷ [] else [];
  course_run_types = λ t. t ∷ [];
  course_type_slug = λ t. if nat_beq t 2 then "verified-audit" else "audit";
  is_empty_course_type = λ t. nat_beq t 0;
  seat_types = λ t. if nat_beq t 2 then some verified ∷ some audit ∷ [] else some audit ∷ [];
  run_type_slug = λ t. if nat_beq t 2 then "verified-audit" else "audit";
  is_empty_run_type = λ t. nat_beq t 0;
  all_run_types = 0 ∷ 1 ∷ 2 ∷ [];
}

abbrev mismatches : List (String × List String)
mismatches = ("verified-audit", "audit" ∷ []) ∷ []

-- A course with an entitlement, an untyped run with both seats, and one that is audit only.
abbrev course : TypedCourse
course = record {
  type = 0;
  entitlements = 1 ∷ [];
  course_runs =
      record { type = 0; seats = audit ∷ verified ∷ [] }
      ∷ record { type = 1; seats = audit ∷ [] }
      ∷ [];
}

calculate_course_type_idem_example :
    let (course', matched) = calculate_course_type types mismatches (1 ∷ 2 ∷ []) course in
    calculate_course_type types mismatches (1 ∷ 2 ∷ []) course' ≡ (course', matched)
calculate_course_type_idem_example = calculate_course_type_idem types mismatches (1 ∷ 2 ∷ []) course

calculate_course_type_lem_example :
    let (course', matched) = calculate_course_type types mismatches (1 ∷ 2 ∷ []) course in
    ((matched ≡ false) × ((course' ≡ course) × NoneFits types (1 ∷ 2 ∷ []) course))
    ⊎ ((matched ≡ true)
        × ((t : ℕ) × ((mem t (1 ∷ 2 ∷ []) ≡ true) × IsTyped types mismatches t course course')))
calculate_course_type_lem_example = calculate_course_type_lem types mismatches (1 ∷ 2 ∷ []) course
