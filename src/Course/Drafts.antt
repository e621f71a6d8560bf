-- ===== src/Course/Drafts.antt =====
-- set_draft_state and ensure_draft_world (course_discovery/apps/course_metadata/utils.py): the
-- drafts of a course, its runs with their seats, and its entitlements. The database hands out new
-- keys from a counter. A run is told by its key here where the code compares uuids, which a draft
-- shares with its original. Salesforce, the images and the many-to-many fields other than the staff
-- are left out.
pub mod RoundTrip
use course_discovery_ed_uhk.Base.{
  ℕ, ◌+◌, Bool, true, false, Option, none, some, List, [], ◌∷◌, ◌++◌, map, nat_beq, if◌then◌else◌,
  is_empty, first, keep, present_and, or_else, string_eq, ◌==◌, String,
}
use course_discovery_ed_uhk.Run.{Seat, CourseRun}
use course_discovery_ed_uhk.Course.Entitlement.{Entitlement, create_missing_entitlement}

-- An official course run with its draft version, if it has one.
pub record RunRow : Type 0 where
  pub run : CourseRun
  pub draft_version : Option CourseRun

pub record Course : Type 0 where
  pub id : ℕ
  pub draft : Bool
  pub canonical_course_run : Option ℕ
  pub editors : List ℕ
  pub url_slug_history : List String
  pub entitlements : List Entitlement

-- `set_draft_state(seat, Seat, {'course_run': draft_run})`: the draft, the original, the next key
unfoldable pub set_draft_seat : ℕ → Seat → Seat × Seat × ℕ
set_draft_seat next seat =
    (record seat { id = next }, record seat { draft_version = some next }, next + 1)

-- `for seat in original_run.seats.all(): ...`
unfoldable pub set_draft_seats : ℕ → List Seat → List Seat × List Seat × ℕ
unfolding set_draft_seat
set_draft_seats next [] = ([], [], next)
set_draft_seats next (seat ∷ seats) =
    let (draft, original, next') = set_draft_seat next seat in
    let (drafts, originals, next'') = set_draft_seats next' seats in
    (draft ∷ drafts, original ∷ originals, next'')

-- `set_draft_state(run, CourseRun, {'course': draft_course})`, and the seats
unfoldable pub set_draft_run : ℕ → CourseRun → CourseRun × CourseRun × ℕ
unfolding set_draft_seats
set_draft_run next run =
    let (drafts, originals, next') = set_draft_seats (next + 1) run.seats in
    (
      record run { id = next; draft = true; seats = drafts },
      record run { seats = originals },
      next',
    )

-- The loop over the course runs.
unfoldable pub set_draft_runs : ℕ → List CourseRun → List RunRow × ℕ
unfolding set_draft_run
set_draft_runs next [] = ([], next)
set_draft_runs next (run ∷ runs) =
    let (draft, original, next') = set_draft_run next run in
    let (rows, next'') = set_draft_runs next' runs in
    ((record { run = original; draft_version = some draft }) ∷ rows, next'')

abbrev pub drafts : List RunRow → List CourseRun
drafts [] = []
drafts (row ∷ rows) = elim row.draft_version [
  | none ↦ drafts rows
  | some draft ↦ draft ∷ drafts rows
]

-- The draft of the canonical run; the loop assigns it when it comes to that run.
unfoldable pub draft_canonical : Option ℕ → List RunRow → Option ℕ
draft_canonical canonical [] = none
draft_canonical canonical (row ∷ rows) =
    let rest = draft_canonical canonical rows in
    elim row.draft_version [
      | none ↦ rest
      | some draft ↦
          if present_and (nat_beq row.run.id) canonical then or_else rest (some draft.id) else rest
    ]

-- `set_draft_state(entitlement, CourseEntitlement, {'course': draft_course})`
unfoldable pub set_draft_entitlements :
    ℕ → List Entitlement → List Entitlement × List Entitlement × ℕ
set_draft_entitlements next [] = ([], [], next)
set_draft_entitlements next (entitlement ∷ entitlements) =
    let (draft_ones, originals, next') = set_draft_entitlements (next + 1) entitlements in
    (
      (record entitlement { id = next }) ∷ draft_ones,
      (record entitlement { draft_version = some next }) ∷ originals,
      next',
    )

-- What the database holds of a course: its official row, if there is one, its draft row, if there
-- is one, and its official runs with their drafts.
pub record World : Type 0 where
  pub official : Course
  pub draft : Option Course
  pub runs : List RunRow
  pub next : ℕ

abbrev pub official_runs : List RunRow → List CourseRun
official_runs rows = map (λ row. row.run) rows

unfoldable pub create_draft_world : ℕ → World → World
unfolding set_draft_runs set_draft_entitlements draft_canonical
create_draft_world now w =
    let (rows, after_runs) = set_draft_runs (w.next + 1) (official_runs w.runs) in
    let course = record w.official {
      id = w.next;
      draft = true;
      canonical_course_run = draft_canonical w.official.canonical_course_run rows;
      url_slug_history = [];
    } in
    let (draft_ones, originals, after) =
      set_draft_entitlements after_runs w.official.entitlements in
    let (missing, after_missing, _) = create_missing_entitlement now after_runs (drafts rows) [] in
    if is_empty w.official.entitlements
    then record {
      official = record w.official { editors = [] };
      draft = some (record course { entitlements = missing });
      runs = rows;
      next = after_missing;
    }
    else record {
      official = record w.official { editors = []; entitlements = originals };
      draft = some (record course { entitlements = draft_ones });
      runs = rows;
      next = after;
    }

-- `ensure_draft_world` on the official course.
unfoldable pub ensure_draft_world : ℕ → World → World
unfolding create_draft_world
ensure_draft_world now w = elim w.draft [ none ↦ create_draft_world now w | some _ ↦ w ]

-- `ensure_draft_world` on an official run of the course, and the run that it gives back:
-- `CourseRun.everything.get(key=obj.key, draft=True)`, which raises if there is none.
unfoldable pub ensure_draft_run : ℕ → RunRow → World → Option CourseRun × World
unfolding ensure_draft_world
ensure_draft_run now row w = elim row.draft_version [
  | some draft ↦ (some draft, w)
  | none ↦
      let w' = ensure_draft_world now w in
      (first (keep (λ d. d.key == row.run.key) (drafts w'.runs)), w')
]
