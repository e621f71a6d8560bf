-- ===== src/Course/Unpublish.antt =====
-- Course.unpublish_inactive_runs (course_discovery/apps/course_metadata/models.py), over the rows
-- of the official course runs, each with its draft version. Saving an official run, or a draft
-- whose status becomes Unpublished, does no more than write the row: `handle_status_change` has no
-- branch for it. The call of the marketing site that `save` may add is not modelled.
pub mod Spec
use course_discovery_ed_uhk.Base.{
  ℕ, Bool, true, false, ◌&&◌, ◌||◌, not, Option, none, some, List, [], ◌∷◌, ◌==◌, nat_eq, nat_beq,
  if◌then◌else◌, keep, any, is_empty,
}
use course_discovery_ed_uhk.Run.{CourseRun, CourseRunStatus, published, unpublished, status_eq}
use course_discovery_ed_uhk.Run.Dates.{has_enrollment_ended}
use course_discovery_ed_uhk.Run.Market.{could_be_marketable}

-- An official run and its draft version, if it has one.
pub record Row : Type 0 where
  pub run : CourseRun
  pub draft_version : Option CourseRun

abbrev pub with_status : CourseRunStatus → CourseRun → CourseRun
with_status status run = record run { status = status }

-- `run.save()` writes the row with the run's primary key.
unfoldable pub save : Row → List Row → List Row
save row [] = []
save row (r ∷ rows) = (if r.run.id == row.run.id then row else r) ∷ save row rows

-- The assignments of the last loop to a run and its draft version.
abbrev pub unpublish_row : Row → Row
unpublish_row row = record {
  run = with_status unpublished row.run;
  draft_version = elim row.draft_version [
    | none ↦ none
    | some draft ↦ some (with_status unpublished draft)
  ];
}

-- `for run in inactive_runs: ...`
unfoldable pub unpublish_all : List Row → List Row → List Row
unfolding save
unpublish_all [] rows = rows
unpublish_all (r ∷ inactive) rows = unpublish_all inactive (save (unpublish_row r) rows)

abbrev pub is_published_row : Row → Bool
is_published_row row = row.run.status == published

abbrev pub is_inactive : ℕ → Row → Bool
is_inactive now row = has_enrollment_ended now (some now) row.run

-- `published_runs` are the rows handed in, or None, which looks them up.
unfoldable pub unpublish_inactive_runs : Bool → ℕ → Option (List Row) → List Row → List Row × Bool
unfolding unpublish_all
unpublish_inactive_runs has_marketing_site now published_runs rows =
    let published_rows : List Row = elim published_runs [
      | none ↦ keep is_published_row rows
      | some given ↦ given
    ] in
    let inactive_runs = keep (is_inactive now) published_rows in
    let marketable_runs =
      keep (λ row. not (is_inactive now row) && could_be_marketable row.run) published_rows in
    if not has_marketing_site
    then (rows, false)
    else if is_empty marketable_runs || is_empty inactive_runs
    then (rows, false)
    else (unpublish_all inactive_runs rows, true)
