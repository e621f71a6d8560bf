-- ===== src/Run/Market.antt =====
-- Which course runs are marketed: CourseRun.marketing_url, could_be_marketable and is_marketable
-- (course_discovery/apps/course_metadata/models.py), CourseRunQuerySet.marketable and
-- CourseQuerySet.available (course_discovery/apps/course_metadata/query.py).
pub mod Queries
use Prim.Native.String.{◌++◌}
use course_discovery_ed_uhk.Base.{
  ℕ, String, Bool, true, false, ◌&&◌, not, Option, none, some, List, ◌==◌, string_eq, if◌then◌else◌,
  absent_or, keep, any, is_empty, is_some, ltb, leb,
}
use course_discovery_ed_uhk.Run.{CourseRun, published, status_eq}

-- The reference that `marketing_url` joins to the root of the marketing site, or None where it
-- returns None. The URL of a reference that is not empty is not empty, so the two are alike as tests.
unfoldable pub marketing_path : CourseRun → Option String
marketing_path run =
    if not (run.slug == "") && run.type.is_marketable then some ("course/" ++ run.slug) else none

unfoldable pub could_be_marketable : CourseRun → Bool
could_be_marketable run = if not run.type.is_marketable then false else not run.draft

unfoldable pub is_marketable : CourseRun → Bool
unfolding could_be_marketable marketing_path
is_marketable run =
    if not (could_be_marketable run)
    then false
    else (run.status == published) && not (is_empty run.seats) && is_some (marketing_path run)

-- CourseRunQuerySet.marketable, on one row and on a table
unfoldable pub is_marketable_row : CourseRun → Bool
is_marketable_row run =
    not (run.slug == "")
    && not (is_empty run.seats)
    && not run.draft
    && not (not run.type.is_marketable)
    && (run.status == published)

unfoldable pub marketable : List CourseRun → List CourseRun
unfolding is_marketable_row
marketable runs = keep is_marketable_row runs

-- The conditions that CourseQuerySet.available puts on one row of the join of courses and runs.
unfoldable pub is_available_row : ℕ → CourseRun → Bool
is_available_row now run =
    (absent_or (λ start. leb start now) run.enrollment_start
      && absent_or (λ end. ltb now end) run.enrollment_end)
    && absent_or (λ end. ltb now end) run.end
    && (not (run.slug == "")
        && not (is_empty run.seats)
        && not run.draft
        && not (not run.type.is_marketable)
        && (run.status == published))

-- Whether the course with these runs is in CourseQuerySet.available: one `filter` call asks all
-- of its conditions of one and the same run.
unfoldable pub is_available : ℕ → List CourseRun → Bool
unfolding is_available_row
is_available now runs = any (is_available_row now) runs
