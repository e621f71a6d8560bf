-- ===== src/Course/Types/Idempotent.antt =====
-- calculate_course_type, called once and again
-- (course_discovery/apps/course_metadata/data_loaders/course_type.py).
use course_discovery_ed_uhk.Course.Types.Fitted.{IsTyped, NoneFits, match_runs-AreFitted}
use course_discovery_ed_uhk.Base.{
  ℕ, String, ◌≡◌, ◌⊎◌, refl, subst, true, false, none, some, List, [], ◌∷◌, arith, nat_beq,
  nat_beq_iff, ap, ◌∙◌, if◌then◌else◌, Bool-cases, Option-cases, inl, inr,
}
use course_discovery_ed_uhk.Course.Types.{
  Types, TypedRun, TypedCourse, mem, do_entitlements_match, allowed_run_types, match_runs,
  match_course_type, calculate_course_type,
}
use course_discovery_ed_uhk.Course.Types.Fits.{do_entitlements_match-HasModes}
use course_discovery_ed_uhk.Course.Types.Complete.{Fits-match_course_type}
use course_discovery_ed_uhk.Course.Types.Runs.{match_runs_again, match_runs_refused}

abbrev typed : Types → ℕ → TypedCourse → List TypedRun → TypedCourse
typed types t course runs = record course {
  type = if types.is_empty_course_type course.type then t else course.type;
  course_runs = runs;
}

-- A match comes from the entitlements and from the runs.
match_course_inv :
    (types : Types) (mismatches : List (String × List String)) (course course' : TypedCourse)
    (t : ℕ)
    → match_course_type types mismatches course t ≡ some course'
    → (runs : List TypedRun) × ((do_entitlements_match types course t ≡ true)
        × ((match_runs types (allowed_run_types types mismatches t) course.course_runs ≡ some runs)
            × (typed types t course runs ≡ course')))
unfolding match_course_type
match_course_inv types mismatches course course' t h =
    elim (Bool-cases (do_entitlements_match types course t)) [
      | inr e ↦ cc (rw e at h)
      | inl e ↦
          elim (Option-cases
            (match_runs types (allowed_run_types types mismatches t) course.course_runs)) [
              | inl f ↦ cc (rw (e, f) at h)
              | inr (runs, f) ↦ (runs, (e, (f, cc (rw (e, f) at h))))
            ]
    ]

profile_again :
    (types : Types) (course : TypedCourse) (t : ℕ) (runs : List TypedRun)
    → do_entitlements_match types course t ≡ true
    → do_entitlements_match types (typed types t course runs) t ≡ true
unfolding do_entitlements_match
profile_again types course t runs h = ground (arith)

profile_refused :
    (types : Types) (course : TypedCourse) (t u : ℕ) (runs : List TypedRun)
    → do_entitlements_match types course u ≡ false
    → do_entitlements_match types (typed types t course runs) u ≡ false
unfolding do_entitlements_match
profile_refused types course t u runs h = ground (arith)

match_course_again :
    (types : Types) (mismatches : List (String × List String)) (course course' : TypedCourse)
    (t : ℕ)
    → match_course_type types mismatches course t ≡ some course'
    → match_course_type types mismatches course' t ≡ some course'
unfolding match_course_type
match_course_again types mismatches course course' t h =
    let (runs, (e, (f, q))) = match_course_inv types mismatches course course' t h in
    subst (λ c. match_course_type types mismatches c t ≡ some c) q
      (rw
        (
          profile_again types course t runs e,
          match_runs_again types (allowed_run_types types mismatches t) course.course_runs runs f,
        )
        (ground arith))

match_course_refused :
    (types : Types) (mismatches : List (String × List String)) (course course' : TypedCourse)
    (t u : ℕ)
    → match_course_type types mismatches course t ≡ some course'
    → match_course_type types mismatches course u ≡ none
    → match_course_type types mismatches course' u ≡ none
unfolding match_course_type
match_course_refused types mismatches course course' t u h n =
    let (runs, (e, (f, q))) = match_course_inv types mismatches course course' t h in
    subst (λ c. match_course_type types mismatches c u ≡ none) q
      (elim (Bool-cases (do_entitlements_match types course u)) [
        | inr g ↦ rw (profile_refused types course t u runs g) refl
        | inl g ↦
            elim (Option-cases
              (match_runs types (allowed_run_types types mismatches u) course.course_runs)) [
                | inr (_, k) ↦ cc (rw (g, k) at n)
                | inl k ↦
                    let none_left =
                      match_runs_refused types (allowed_run_types types mismatches t)
                        (allowed_run_types types mismatches u) course.course_runs runs f k in
                    elim (Bool-cases (do_entitlements_match types (typed types t course runs) u)) [
                      | inl l ↦ rw (l, none_left) refl
                      | inr l ↦ rw l refl
                    ]
              ]
      ])

match_course-IsTyped :
    (types : Types) (mismatches : List (String × List String)) (course course' : TypedCourse)
    (t : ℕ)
    → match_course_type types mismatches course t ≡ some course'
    → IsTyped types mismatches t course course'
match_course-IsTyped types mismatches course course' t h =
    let (runs, (e, (f, q))) = match_course_inv types mismatches course course' t h in
    subst (IsTyped types mismatches t course) q (record {
      entitlements = refl;
      modes = (do_entitlements_match-HasModes types course t e).0;
      keeps = (do_entitlements_match-HasModes types course t e).1;
      type = refl;
      runs = match_runs-AreFitted types mismatches t course.course_runs runs f;
    })

-- What a call leaves: the course as it was, or the first match.
calculate_cases :
    (types : Types) (mismatches : List (String × List String)) (course_types : List ℕ)
    (course : TypedCourse)
    → (calculate_course_type types mismatches course_types course ≡ (course, false))
      ⊎ ((t : ℕ) × ((mem t course_types ≡ true)
            × ((course' : TypedCourse) × ((match_course_type types mismatches course t
                    ≡ some course')
                  × ((calculate_course_type types mismatches course_types course ≡ (course', true))
                      × (calculate_course_type types mismatches course_types course'
                          ≡ (course', true)))))))
unfolding calculate_course_type
calculate_cases types mismatches [] course = inl refl
calculate_cases types mismatches (u ∷ us) course =
    elim (Option-cases (match_course_type types mismatches course u)) [
      | inr (c, e) ↦ inr (
        u,
        (
          rw ((nat_beq_iff u u).1 refl) refl,
          (
            c,
            (
              e,
              (
                rw (e, calculate_course_type) refl,
                rw (match_course_again types mismatches course c u e, calculate_course_type) refl,
              ),
            ),
          ),
        ),
      )
      | inl e ↦ elim (calculate_cases types mismatches us course) [
        | inl r ↦ inl (rw (e, calculate_course_type) r)
        | inr (t, (m, (c, (f, (r, again))))) ↦ inr (
          t,
          (
            ground (arith, m),
            (
              c,
              (
                f,
                (
                  rw (e, calculate_course_type) r,
                  rw (match_course_refused types mismatches course c t u f e, calculate_course_type)
                      again,
                ),
              ),
            ),
          ),
        )
      ]
    ]

-- Calculating the types of a course once more gives the same answer and changes nothing.
pub calculate_course_type_idem :
    (types : Types) (mismatches : List (String × List String)) (course_types : List ℕ)
    (course : TypedCourse)
    → let (course', matched) = calculate_course_type types mismatches course_types course in
      calculate_course_type types mismatches course_types course' ≡ (course', matched)
calculate_course_type_idem types mismatches course_types course =
    elim (calculate_cases types mismatches course_types course) [
      | inl e ↦ rw e e
      | inr (_, (_, (_, (_, (e, again))))) ↦ rw e again
    ]

-- Where no type is found, none of the course types matches.
unmatched :
    (types : Types) (mismatches : List (String × List String)) (course_types : List ℕ)
    (course : TypedCourse)
    → (calculate_course_type types mismatches course_types course).1 ≡ false
    → (t : ℕ) → mem t course_types ≡ true
    → match_course_type types mismatches course t ≡ none
unfolding calculate_course_type
unmatched types mismatches [] course e t m = cc m
unmatched types mismatches (u ∷ us) course e t m =
    elim (Option-cases (match_course_type types mismatches course u)) [
      | inr (_, f) ↦ cc (rw (f, calculate_course_type) at e)
      | inl f ↦ elim (Bool-cases (nat_beq t u)) [
        | inl s ↦ ap (match_course_type types mismatches course) ((nat_beq_iff t u).0 s) ∙ f
        | inr s ↦
            unmatched types mismatches us course (rw (f, calculate_course_type) at e) t (rw s at m)
      ]
    ]

-- Either the course is as before and none of the course types fits it by its entitlements, its type
-- and the course type's own run types, or one of them matches. Then the course has no entitlements or
-- those of the type, its own type is empty or that type, and it has that type afterwards. Each run
-- keeps its seats, and its type if this is not empty; the type it has afterwards is one of the course
-- type or listed for it, and has tracks of exactly the seat types of the run.
pub calculate_course_type_lem :
    (types : Types) (mismatches : List (String × List String)) (course_types : List ℕ)
    (course : TypedCourse)
    → let (course', matched) = calculate_course_type types mismatches course_types course in
      ((matched ≡ false) × ((course' ≡ course) × NoneFits types course_types course))
      ⊎ ((matched ≡ true)
          × ((t : ℕ) × ((mem t course_types ≡ true) × IsTyped types mismatches t course course')))
calculate_course_type_lem types mismatches course_types course =
    elim (calculate_cases types mismatches course_types course) [
      | inl e ↦
          let none_fits : NoneFits types course_types course = λ t m k.
            Fits-match_course_type types mismatches t course k
              (unmatched types mismatches course_types course (ap (λ r. r.1) e) t m) in
          inl (rw e (refl, (refl, none_fits)))
      | inr (t, (m, (c, (f, (e, _))))) ↦
          inr (rw e (refl, (t, (m, match_course-IsTyped types mismatches course c t f))))
    ]
