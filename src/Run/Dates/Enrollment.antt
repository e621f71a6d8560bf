-- ===== src/Run/Dates/Enrollment.antt =====
-- How the enrollment methods of a course run and the querysets that ask the same of the database
-- agree, and where they differ.
use course_discovery_ed_uhk.Base.{ℕ, ◌≡◌, ◌≢◌, ◌↔◌, false, none, some, List, arith}
use mathlib.Core.List.{Memᴰ}
use course_discovery_ed_uhk.Base.{mem-keep, keep-mem}
use course_discovery_ed_uhk.Run.{CourseRun}
use course_discovery_ed_uhk.Run.Dates.{
  enrollment_deadline, has_enrollment_ended, is_active_course_run, active_course_runs,
}

-- Course.active_course_runs keeps exactly the runs of the course that have an end, whose enrollment
-- has not ended, and whose deadline is not this very moment.
pub mem-active_course_runs :
    (now : ℕ) (runs : List CourseRun) (run : CourseRun)
    → Memᴰ run (active_course_runs now runs) ↔ (
        Memᴰ run runs
        × (run.end ≢ none)
        × (has_enrollment_ended now none run ≡ false)
        × (enrollment_deadline run ≢ some now))
unfolding active_course_runs has_enrollment_ended
mem-active_course_runs now runs run = (
  λ m.
      let r = mem-keep (is_active_course_run now) runs m in
      (r.0, ground arith, ground arith, ground arith),
  λ h. keep-mem (is_active_course_run now) runs h.0 (ground arith),
)
