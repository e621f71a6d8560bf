-- ===== src/Run/Market/Queries.antt =====
-- The querysets and the methods of a run agree on what is marketed.
use course_discovery_ed_uhk.Base.{ℕ, ◌≡◌, refl, ◌&&◌, List, [], ◌∷◌, arith, any, keep}
use course_discovery_ed_uhk.Run.{CourseRun}
use course_discovery_ed_uhk.Run.Dates.{is_active_row, is_enrollable_row}
use course_discovery_ed_uhk.Run.Market.{
  is_marketable, is_marketable_row, marketable, is_available, is_available_row,
}

marketable_row_lem : (run : CourseRun) → is_marketable_row run ≡ is_marketable run
unfolding is_marketable is_marketable_row
marketable_row_lem run = ground arith

-- The marketable queryset keeps exactly the runs that are marketable one by one, in their order.
pub marketable-keep : (runs : List CourseRun) → marketable runs ≡ keep is_marketable runs
unfolding marketable
marketable-keep [] = refl
marketable-keep (run ∷ runs) = ground (arith, marketable_row_lem run, marketable-keep runs)

available_row_lem :
    (now : ℕ) (run : CourseRun)
    → is_available_row now run
      ≡ (is_marketable run && is_active_row now run && is_enrollable_row now run)
unfolding is_available_row is_marketable is_active_row is_enrollable_row
available_row_lem now run = ground arith

-- A course is available exactly when one of its runs is marketable, active and open for enrollment
-- at once.
pub is_available-any :
    (now : ℕ) (runs : List CourseRun)
    → is_available now runs
      ≡ any (λ run. is_marketable run && is_active_row now run && is_enrollable_row now run) runs
unfolding is_available
is_available-any now [] = refl
is_available-any now (run ∷ runs) =
    ground (arith, available_row_lem now run, is_available-any now runs)
