-- ===== src/Signals/ExternalKeys/Unique.antt =====
-- What a course run that passes its receiver does not clash with.
use course_discovery_ed_uhk.Base.{
  ℕ, ◌≡◌, ◌⊎◌, inl, inr, refl, ◌∙◌, Bool, true, false, ◌&&◌, not, some, List, [], ◌∷◌, arith,
  nat_beq, string_eq, if◌then◌else◌, keep, any, is_empty, is_some, is_empty-keep, Bool-cases,
  Option-cases,
}
use course_discovery_ed_uhk.Signals.{mem}
use course_discovery_ed_uhk.Signals.ExternalKeys.{
  Run, Membership, Tables, saved, has_key, same_key, same_run, in_external_key_set,
  in_course_run_ids, is_related, is_duplicate,
  check_curricula_and_related_programs_for_duplicate_external_key,
  check_course_runs_within_course_for_duplicate_external_key, curricula_of, check_course_run,
  old_course_run, ensure_external_key_uniqueness__course_run,
}

-- Another row with the key of the run: of its course, or, where that is in curricula, an official row
-- of a course in one of these without a program, or in the program of one.
abbrev pub clashes : Tables → Run → Run → Bool
clashes tables run other =
    same_key run other
    && not (same_run run other)
    && (if is_empty (curricula_of tables run.course)
        then nat_beq other.course run.course
        else not other.draft
          && any
              (λ m. nat_beq m.course other.course && is_related (curricula_of tables run.course) m)
              tables.memberships)

within_saved :
    (run : Run) (course : ℕ) (rows : List Run)
    → check_course_runs_within_course_for_duplicate_external_key
        (keep (λ r. nat_beq r.course course) rows)
        run
      ≡ saved
    → any (λ r. same_key run r && not (same_run run r) && nat_beq r.course course) rows ≡ false
unfolding check_course_runs_within_course_for_duplicate_external_key
within_saved run course [] h = refl
within_saved run course (r ∷ rows) h = ground (arith, within_saved run course rows)

any-ext : (p q : Run → Bool) (rows : List Run) → ((r : Run) → p r ≡ q r) → any p rows ≡ any q rows
any-ext p q [] h = refl
any-ext p q (r ∷ rows) h = rw (h r, any-ext p q rows h) refl

no_duplicate :
    (tables : Tables) (curricula : List Membership) (runs : List Run)
    → check_curricula_and_related_programs_for_duplicate_external_key tables curricula runs ≡ saved
    → any (is_duplicate tables curricula runs) tables.runs ≡ false
unfolding check_curricula_and_related_programs_for_duplicate_external_key
no_duplicate tables curricula runs h =
    ground (arith, is_empty-keep (is_duplicate tables curricula runs) tables.runs)

check_course_run_saved :
    (tables : Tables) (run : Run)
    → has_key run ≡ true
    → check_course_run tables run ≡ saved
    → any (clashes tables run) tables.runs ≡ false
unfolding check_course_run check_curricula_and_related_programs_for_duplicate_external_key
    is_duplicate in_external_key_set in_course_run_ids
check_course_run_saved tables run k h =
    elim (Bool-cases (is_empty (curricula_of tables run.course))) [
      | inl e ↦
          any-ext (clashes tables run) _ tables.runs (λ r. rw e refl)
          ∙ within_saved run run.course tables.runs (rw e at h)
      | inr e ↦
          any-ext (clashes tables run)
            (is_duplicate tables (curricula_of tables run.course) (run ∷ [])) tables.runs
            (λ r. rw (e, k) (ground arith))
          ∙ no_duplicate tables (curricula_of tables run.course) (run ∷ []) (rw e at h)
    ]

-- A run with an external key that passes the receiver, and is not an official run of a draft
-- course, clashes with no other row, unless it is saved with the key and the course that its row
-- has.
pub ensure_external_key_uniqueness__course_run-clashes :
    (tables : Tables) (run : Run)
    → has_key run ≡ true
    → (not run.draft && mem run.course tables.draft_courses) ≡ false
    → ensure_external_key_uniqueness__course_run tables run ≡ saved
    → (any (clashes tables run) tables.runs ≡ false)
      ⊎ ((old : Run) × ((old_course_run tables run ≡ some old)
            × ((same_key run old ≡ true) × (nat_beq run.course old.course ≡ true))))
unfolding ensure_external_key_uniqueness__course_run
ensure_external_key_uniqueness__course_run-clashes tables run k d h =
    let checked = check_course_run_saved tables run k in
    elim (Bool-cases (is_some run.id)) [
      | inr e ↦ inl (checked (rw (k, d, e) at h))
      | inl e ↦ elim (Option-cases (old_course_run tables run)) [
        | inl f ↦ ground (arith, f)
        | inr (old, f) ↦ elim (Bool-cases (same_key run old && nat_beq run.course old.course)) [
          | inl g ↦ inr (old, (f, (ground arith, ground arith)))
          | inr g ↦ inl (checked (rw (k, d, e, f, g) at h))
        ]
      ]
    ]
