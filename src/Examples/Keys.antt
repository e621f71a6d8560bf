-- ===== src/Examples/Keys.antt =====
-- An example for the external keys: a new run with a key of its own in a course outside curricula.
use course_discovery_ed_uhk.Base.{◌≡◌, ◌⊎◌, refl, true, false, none, some, [], ◌∷◌, any, nat_beq}
use course_discovery_ed_uhk.Signals.ExternalKeys.{
  Run, Tables, saved, validation_error, same_key, old_course_run, check_course_run,
  check_course_runs_within_course_for_duplicate_external_key,
  ensure_external_key_uniqueness__course_run,
}
use course_discovery_ed_uhk.Signals.ExternalKeys.Unique.{
  clashes, ensure_external_key_uniqueness__course_run-clashes,
}

abbrev tables : Tables
tables = record {
  runs =
      record { id = some 1; external_key = some "A"; draft = false; course = 5 }
      ∷ record { id = some 2; external_key = some "B"; draft = false; course = 6 }
      ∷ [];
  memberships = record { course = 6; curriculum = 3; program = some 9 } ∷ [];
  draft_courses = [];
}

abbrev new_run : Run
new_run = record { id = none; external_key = some "C"; draft = false; course = 5 }

new_run_saved : ensure_external_key_uniqueness__course_run tables new_run ≡ saved
unfolding ensure_external_key_uniqueness__course_run check_course_run
    check_course_runs_within_course_for_duplicate_external_key
new_run_saved = refl

-- Its key is taken in the course.
taken :
    ensure_external_key_uniqueness__course_run tables (record new_run { external_key = some "A" })
    ≡ validation_error
unfolding ensure_external_key_uniqueness__course_run check_course_run
    check_course_runs_within_course_for_duplicate_external_key
taken = refl

ensure_external_key_uniqueness__course_run-clashes_example :
    (any (clashes tables new_run) tables.runs ≡ false)
    ⊎ ((old : Run) × ((old_course_run tables new_run ≡ some old)
          × ((same_key new_run old ≡ true) × (nat_beq new_run.course old.course ≡ true))))
ensure_external_key_uniqueness__course_run-clashes_example =
    ensure_external_key_uniqueness__course_run-clashes tables new_run refl refl new_run_saved
