-- ===== src/Run/Dates.antt =====
-- The dates of a course run: CourseRun.has_ended, has_enrollment_ended, enrollment_deadline,
-- is_enrollable, is_current, is_upcoming and availability
-- (course_discovery/apps/course_metadata/models.py), and the querysets that ask the same of the
-- database: Course.active_course_runs and CourseRunQuerySet.active and enrollable
-- (course_discovery/apps/course_metadata/query.py). `now` is the reading of the clock.
pub mod Enrollment
use Prim.Native.Nat.{min}
use course_discovery_ed_uhk.Base.{
  ℕ, ◌+◌, ◌*◌, ◌/◌, ◌<◌, ◌≤◌, ◌≡◌, ◌≢◌, ◌↔◌, refl, Bool, true, false, ◌&&◌, not, Option, none, some,
  List, [], ◌∷◌, arith, ltb, leb, if◌then◌else◌, is_some, absent_or, present_and, keep,
}
use course_discovery_ed_uhk.Run.{CourseRun}

-- `filter(None, dates)`: a datetime is never false, so only the missing ones go.
present : List (Option ℕ) → List ℕ
present [] = []
present (none ∷ dates) = present dates
present (some d ∷ dates) = d ∷ present dates

-- `min(dates) if dates else None`
minimum : List ℕ → Option ℕ
minimum [] = none
minimum (d ∷ []) = some d
minimum (d ∷ e ∷ dates) = elim (minimum (e ∷ dates)) [ none ↦ some d | some m ↦ some (min d m) ]

unfoldable pub enrollment_deadline : CourseRun → Option ℕ
unfolding present minimum
enrollment_deadline run = minimum (present (run.end ∷ run.enrollment_end ∷ []))

-- `when or datetime.datetime.now(pytz.UTC)`
abbrev pub resolve : ℕ → Option ℕ → ℕ
resolve now none = now
resolve now (some at) = at

unfoldable pub has_ended : ℕ → Option ℕ → CourseRun → Bool
has_ended now when run = present_and (λ end. ltb end (resolve now when)) run.end

unfoldable pub has_enrollment_ended : ℕ → Option ℕ → CourseRun → Bool
unfolding enrollment_deadline
has_enrollment_ended now when run =
    present_and (λ deadline. ltb deadline (resolve now when)) (enrollment_deadline run)

unfoldable pub is_enrollable : ℕ → CourseRun → Bool
is_enrollable now run =
    absent_or (λ end. leb now end) run.enrollment_end
    && absent_or (λ start. leb start now) run.enrollment_start

-- `.date()`, as a day number; the sums of days below stay far from the bounds of `date`.
abbrev pub day : ℕ → ℕ
day t = t / 86_400_000_000

unfoldable pub is_current : ℕ → CourseRun → Bool
is_current now run =
    let after_start = absent_or (λ start. ltb start now) run.start in
    let ends_in_more_than_two_weeks = absent_or (λ end. leb (day now + 14) (day end)) run.end in
    after_start && ends_in_more_than_two_weeks

unfoldable pub is_upcoming : ℕ → CourseRun → Bool
is_upcoming now run = present_and (λ start. leb now start) run.start

pub data Availability : Type 0 where
  archived current starting_soon upcoming : Availability

unfoldable pub availability : ℕ → CourseRun → Availability
unfolding has_ended
availability now run =
    let upcoming_cutoff = now + 60 * 86_400_000_000 in
    if has_ended now (some now) run
    then archived
    else if present_and (λ start. leb start now) run.start
    then current
    else if present_and (λ start. ltb now start && ltb start upcoming_cutoff) run.start
    then starting_soon
    else upcoming

-- `Q(field__gt=now) | Q(field__isnull=True)`
abbrev after_or_null : ℕ → Option ℕ → Bool
after_or_null now field = absent_or (λ t. ltb now t) field

-- CourseRunQuerySet.active, on one row and on a table
unfoldable pub is_active_row : ℕ → CourseRun → Bool
is_active_row now run = after_or_null now run.end && after_or_null now run.enrollment_end

unfoldable pub active : ℕ → List CourseRun → List CourseRun
unfolding is_active_row
active now runs = keep (is_active_row now) runs

-- CourseRunQuerySet.enrollable
unfoldable pub is_enrollable_row : ℕ → CourseRun → Bool
is_enrollable_row now run =
    after_or_null now run.enrollment_end && absent_or (λ start. leb start now) run.enrollment_start

-- Course.active_course_runs: `end` has to be there, since NULL passes no comparison
unfoldable pub is_active_course_run : ℕ → CourseRun → Bool
is_active_course_run now run =
    present_and (λ end. ltb now end) run.end && after_or_null now run.enrollment_end

unfoldable pub active_course_runs : ℕ → List CourseRun → List CourseRun
unfolding is_active_course_run
active_course_runs now runs = keep (is_active_course_run now) runs
