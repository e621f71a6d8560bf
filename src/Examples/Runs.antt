-- ===== src/Examples/Runs.antt =====
-- Examples for the dates, the seats, the marketing and the official version of a course run.
use mathlib.Core.List.{Memᴰ}
use course_discovery_ed_uhk.Base.{
  String, ◌+◌, ◌≡◌, refl, true, false, none, some, List, [], ◌∷◌, arith, any, ◌⊎◌,
}
use course_discovery_ed_uhk.Run.{CourseRun, Seat, audit, verified}
use course_discovery_ed_uhk.Run.Official.{update_or_create_official_version}
use course_discovery_ed_uhk.Run.Official.Mirror.{
  IsMirrored, update_or_create_official_version-mirrors,
}
use course_discovery_ed_uhk.Run.SeatUpdate.{ok, of_type, update_or_create_seats}
use course_discovery_ed_uhk.Run.SeatUpdate.Types.{update_or_create_seats-upgrade}
use course_discovery_ed_uhk.Examples.Data.{at_day, open_run, ended_run, draft_run, audit_seat, seat}

abbrev runs : List CourseRun
runs = open_run ∷ ended_run ∷ []

-- The draft run is made official for the first time.
update_or_create_official_version-mirrors_example :
    let version = (update_or_create_official_version 30 draft_run none).0 in
    (version.draft ≡ false)
    × (record version { id = draft_run.id; draft = draft_run.draft; seats = draft_run.seats }
        ≡ draft_run)
    × ((s : Seat) → Memᴰ s draft_run.seats → IsMirrored version.seats s)
update_or_create_official_version-mirrors_example =
    update_or_create_official_version-mirrors 30 draft_run none (omega arith) tt

-- An audit run becomes one with a verified track; the seats have no deadline of their own yet.
abbrev updated : List Seat
updated =
    audit_seat
    ∷ record (seat 30 verified 4900 none) {
      stored_upgrade_deadline = some (at_day 190 + 86_399_099_999);
    }
    ∷ []

update_runs :
    update_or_create_seats 10
      (some (at_day 200))
      (some (audit ∷ []))
      (some verified ∷ some audit ∷ none ∷ [])
      ((verified, 4900) ∷ [])
      30
      (audit_seat ∷ [])
    ≡ ok (updated, 31)
unfolding update_or_create_seats
update_runs = refl

update_or_create_seats-upgrade_example :
    (any (of_type audit) updated ≡ true)
    ⊎ ((any (of_type verified) updated ≡ true) × (◌≡◌ {A = String} audit audit))
update_or_create_seats-upgrade_example =
    update_or_create_seats-upgrade 10 (some (at_day 200)) (audit ∷ [])
      (some verified ∷ some audit ∷ none ∷ []) ((verified, 4900) ∷ []) 30 (audit_seat ∷ []) updated
      31 audit update_runs refl
