-- ===== src/Run/Official.antt =====
-- CourseRun.update_or_create_official_version (course_discovery/apps/course_metadata/models.py) and
-- set_official_state (course_discovery/apps/course_metadata/utils.py) for a draft course run and its
-- draft seats. The database hands out new primary keys from a counter. The official course, and what
-- is sent to the other services, are not part of this module.
pub mod Mirror
use course_discovery_ed_uhk.Base.{
  ℕ, ◌+◌, Bool, true, false, Option, none, some, List, [], ◌∷◌, ◌++◌, map, nat_beq, if◌then◌else◌,
  any, present_and,
}
use course_discovery_ed_uhk.Run.{Seat, CourseRun}

-- `seat.official_version`, looked up from the other side of its one-to-one field
abbrev pub links : ℕ → Seat → Bool
links id seat = present_and (λ i. nat_beq i id) seat.draft_version

-- The draft seat, saved under another key as the official version of itself.
abbrev pub copy_of : ℕ → Seat → Seat
copy_of key seat = record seat { id = key; draft_version = some seat.id }

-- `set_official_state(seat, Seat, {'course_run': official_version})`
unfoldable pub set_official_seat : ℕ → Seat → List Seat → List Seat × ℕ
set_official_seat next seat official =
    if any (links seat.id) official
    then (map (λ o. if links seat.id o then copy_of o.id seat else o) official, next)
    else (official ++ copy_of next seat ∷ [], next + 1)

-- `for seat in self.seats.all(): ...`
unfoldable pub set_official_seats : ℕ → List Seat → List Seat → List Seat × ℕ
unfolding set_official_seat
set_official_seats next [] official = (official, next)
set_official_seats next (seat ∷ seats) official =
    let (official', next') = set_official_seat next seat official in
    set_official_seats next' seats official'

-- `set_official_state(draft_version, CourseRun)`: the official row, under its old key or a new one,
-- with its old seats.
unfoldable pub set_official_run : ℕ → CourseRun → Option CourseRun → CourseRun × ℕ
set_official_run next run none = (record run { id = next; draft = false; seats = [] }, next + 1)
set_official_run next run (some official) =
    (record run { id = official.id; draft = false; seats = official.seats }, next)

unfoldable pub update_or_create_official_version : ℕ → CourseRun → Option CourseRun → CourseRun × ℕ
unfolding set_official_run set_official_seats
update_or_create_official_version next run official =
    let (version, next') = set_official_run next run official in
    let (seats, next'') = set_official_seats next' run.seats version.seats in
    (record version { seats = seats; slug = run.slug }, next'')
