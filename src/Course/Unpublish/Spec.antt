-- ===== src/Course/Unpublish/Spec.antt =====
-- Which runs `unpublish_inactive_runs` changes, and what it never takes away.
use course_discovery_ed_uhk.Base.{
  ℕ, ◌≢◌, Bool, ◌&&◌, not, List, [], ◌∷◌, nat_eq, if◌then◌else◌, All,
}
use course_discovery_ed_uhk.Run.{status_eq}
use course_discovery_ed_uhk.Run.Market.{could_be_marketable}
use course_discovery_ed_uhk.Course.Unpublish.{Row, unpublish_row, is_published_row, is_inactive}

-- Primary keys are unique in the table.
abbrev pub Fresh : ℕ → List Row → Type 0
Fresh i rows = All (λ row. row.run.id ≢ i) rows

abbrev pub HasKeys : List Row → Type 0
HasKeys [] = Unit
HasKeys (row ∷ rows) = Fresh row.run.id rows × HasKeys rows

-- One row, as the documentation describes it: published and past its enrollment deadline.
abbrev pub is_old : ℕ → Row → Bool
is_old now row = is_published_row row && is_inactive now row

abbrev pub update : ℕ → Row → Row
update now row = if is_old now row then unpublish_row row else row

-- A published run that could be marketed and whose enrollment has not ended.
abbrev pub is_live : ℕ → Row → Bool
is_live now row = is_published_row row && (not (is_inactive now row) && could_be_marketable row.run)
