-- ===== src/Course/Drafts/RoundTrip.antt =====
-- The drafts that ensure_draft_world makes, made official again, give the official runs back.
use mathlib.Core.List.{Memᴰ}
use course_discovery_ed_uhk.Base.{
  ℕ, ◌+◌, ◌≤◌, ◌<◌, ◌≡◌, refl, sym, ap, ap₂, true, false, none, some, List, [], ◌∷◌, map, arith,
  subst, nat_beq_iff, keep, is_empty, All, Bool-cases, inl, inr,
}
use course_discovery_ed_uhk.Run.{Seat, CourseRun}
use course_discovery_ed_uhk.Run.Official.{links, update_or_create_official_version}
use course_discovery_ed_uhk.Run.Official.Mirror.{IsMirrored, set_official_seats_again}
use course_discovery_ed_uhk.Course.Drafts.{
  RunRow, World, set_draft_seats, set_draft_run, set_draft_runs, official_runs, create_draft_world,
  ensure_draft_world,
}

-- New keys are not yet pointed to.
keep-links-fresh :
    (key next : ℕ) (seats : List Seat)
    → key < next
    → keep (links key) (set_draft_seats next seats).1 ≡ []
unfolding set_draft_seats
keep-links-fresh key next [] h = refl
keep-links-fresh key next (seat ∷ seats) h = ground (arith, keep-links-fresh key (next + 1) seats)

set_draft_seats-IsMirrored :
    (next : ℕ) (seats : List Seat) (s : Seat)
    → Memᴰ s (set_draft_seats next seats).0
    → IsMirrored (set_draft_seats next seats).1 s × (next ≤ s.id)
unfolding set_draft_seats
set_draft_seats-IsMirrored next [] s m = elim m [ ]
set_draft_seats-IsMirrored next (seat ∷ seats) s (Memᴰ.head e) =
    let mine : keep (links next) (set_draft_seats next (seat ∷ seats)).1
        ≡ record seat { draft_version = some next } ∷ [] =
      rw ((nat_beq_iff next next).1 refl, keep-links-fresh next (next + 1) seats (omega arith))
        refl in
    subst (λ t. IsMirrored (set_draft_seats next (seat ∷ seats)).1 t × (next ≤ t.id)) (sym e)
      ((seat.id, mine), omega arith)
set_draft_seats-IsMirrored next (seat ∷ seats) s (Memᴰ.tail m) =
    let ((key, e), l) = set_draft_seats-IsMirrored (next + 1) seats s m in
    ((key, ground (arith, e)), omega arith)

-- The draft of an official run, made official, gives back the run.
set_draft_run_back :
    (next : ℕ) (run : CourseRun) (n : ℕ)
    → run.draft ≡ false
    → let (draft, original, _) = set_draft_run next run in
      update_or_create_official_version n draft (some original) ≡ (original, n)
unfolding set_draft_run update_or_create_official_version
set_draft_run_back next run n official =
    let (drafts, originals, _) = set_draft_seats (next + 1) run.seats in
    rw
      (set_official_seats_again n drafts originals
        (λ s m. (set_draft_seats-IsMirrored (next + 1) run.seats s m).0))
      (ap (λ d. (record run { draft = d; seats = originals }, n)) (sym official))

-- A row of the draft world: an official run and its draft, which made official gives it back.
abbrev pub IsPaired : RunRow → Type 0
IsPaired row =
    (draft : CourseRun) × ((row.draft_version ≡ some draft)
      × ((draft.draft ≡ true)
          × ((n : ℕ) → update_or_create_official_version n draft (some row.run) ≡ (row.run, n))))

abbrev pub unlink : Seat → Seat
unlink seat = record seat { draft_version = none }

-- The run but for the drafts that its seats point to.
abbrev pub unlinked : CourseRun → CourseRun
unlinked run = record run { seats = map unlink run.seats }

set_draft_seats_same :
    (next : ℕ) (seats : List Seat) → map unlink (set_draft_seats next seats).1 ≡ map unlink seats
unfolding set_draft_seats
set_draft_seats_same next [] = refl
set_draft_seats_same next (seat ∷ seats) =
    ap (λ rest. unlink seat ∷ rest) (set_draft_seats_same (next + 1) seats)

set_draft_runs-IsPaired :
    (next : ℕ) (runs : List CourseRun)
    → All (λ run. run.draft ≡ false) runs
    → All IsPaired (set_draft_runs next runs).0
unfolding set_draft_runs
set_draft_runs-IsPaired next [] h = tt
set_draft_runs-IsPaired next (run ∷ runs) h =
    let (draft, original, next') = set_draft_run next run in
    (
      (draft, (refl, (unfold set_draft_run in refl, λ n. set_draft_run_back next run n h.0))),
      set_draft_runs-IsPaired next' runs h.1,
    )

set_draft_runs_same :
    (next : ℕ) (runs : List CourseRun)
    → map (λ row. unlinked row.run) (set_draft_runs next runs).0 ≡ map unlinked runs
unfolding set_draft_runs set_draft_run
set_draft_runs_same next [] = refl
set_draft_runs_same next (run ∷ runs) =
    ap₂ (λ seats rest. record run { seats = seats } ∷ rest)
      (set_draft_seats_same (next + 1) run.seats)
      (set_draft_runs_same (set_draft_run next run).2 runs)

create_runs :
    (now : ℕ) (w : World)
    → (create_draft_world now w).runs ≡ (set_draft_runs (w.next + 1) (official_runs w.runs)).0
unfolding create_draft_world
create_runs now w = elim (Bool-cases (is_empty w.official.entitlements)) [
  | inl e ↦ rw e refl
  | inr e ↦ rw e refl
]

-- The draft world of an official course that has none gives each of its official runs a draft that,
-- made official again, gives back the run and takes no new key; the runs themselves, with
-- their seats, change only in the drafts that the seats point to.
pub ensure_draft_world_roundtrip :
    (now : ℕ) (w : World)
    → w.draft ≡ none
    → All (λ run. run.draft ≡ false) (official_runs w.runs)
    → All IsPaired (ensure_draft_world now w).runs
      × (map (λ row. unlinked row.run) (ensure_draft_world now w).runs
          ≡ map unlinked (official_runs w.runs))
unfolding ensure_draft_world
ensure_draft_world_roundtrip now w fresh official =
    rw (fresh, create_runs now w)
      (
        set_draft_runs-IsPaired (w.next + 1) (official_runs w.runs) official,
        set_draft_runs_same (w.next + 1) (official_runs w.runs),
      )
