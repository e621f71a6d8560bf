-- ===== src/Run/Official/Mirror.antt =====
-- The official version mirrors the draft, seat by seat.
use course_discovery_ed_uhk.Base.{
  ℕ, ◌+◌, ◌≤◌, ◌≡◌, ◌≢◌, refl, sym, ap, ap₂, ◌∙◌, true, false, Option, none, some, List, [], ◌∷◌,
  ◌++◌, map, arith, if◌then◌else◌, any, keep, is_empty, not, length, All, All-mem, Bool-cases, inl,
  inr,
}
use mathlib.Core.List.{Memᴰ}
use course_discovery_ed_uhk.Run.{Seat, CourseRun}
use course_discovery_ed_uhk.Run.Official.{
  links, copy_of, set_official_seat, set_official_seats, update_or_create_official_version,
}

-- A draft seat has one official version, which is a copy of it.
abbrev pub IsMirrored : List Seat → Seat → Type 0
IsMirrored official seat = (key : ℕ) × (keep (links seat.id) official ≡ copy_of key seat ∷ [])

keep-append_new :
    (id next : ℕ) (seat : Seat) (official : List Seat)
    → any (links id) official ≡ false
    → seat.id ≡ id
    → keep (links id) (official ++ copy_of next seat ∷ []) ≡ copy_of next seat ∷ []
keep-append_new id next seat [] h e = ground arith
keep-append_new id next seat (o ∷ official) h e =
    ground (arith, keep-append_new id next seat official)

keep-append_other :
    (id next : ℕ) (seat : Seat) (official : List Seat)
    → seat.id ≢ id
    → keep (links id) (official ++ copy_of next seat ∷ []) ≡ keep (links id) official
keep-append_other id next seat [] e = ground arith
keep-append_other id next seat (o ∷ official) e =
    ground (arith, keep-append_other id next seat official)

-- The seats of one draft seat, after its copy is written over them, and those of another.
keep-overwrite :
    (seat : Seat) (official : List Seat)
    → keep (links seat.id) (map (λ o. if links seat.id o then copy_of o.id seat else o) official)
      ≡ map (λ o. copy_of o.id seat) (keep (links seat.id) official)
keep-overwrite seat [] = refl
keep-overwrite seat (o ∷ official) = ground (arith, keep-overwrite seat official)

keep-overwrite_other :
    (id : ℕ) (seat : Seat) (official : List Seat)
    → seat.id ≢ id
    → keep (links id) (map (λ o. if links seat.id o then copy_of o.id seat else o) official)
      ≡ keep (links id) official
keep-overwrite_other id seat [] e = refl
keep-overwrite_other id seat (o ∷ official) e =
    ground (arith, keep-overwrite_other id seat official)

any-keep :
    (id : ℕ) (official : List Seat)
    → any (links id) official ≡ not (is_empty (keep (links id) official))
any-keep id [] = refl
any-keep id (o ∷ official) = ground (arith, any-keep id official)

only_one :
    (seats : List Seat) → is_empty seats ≡ false → length seats ≤ 1 → (o : Seat) × (seats ≡ o ∷ [])
only_one [] h one = cc
only_one (o ∷ []) h one = (o, refl)
only_one (o ∷ p ∷ seats) h one = absurd (omega arith)

set_official_seat-IsMirrored :
    (next : ℕ) (seat : Seat) (official : List Seat)
    → length (keep (links seat.id) official) ≤ 1
    → IsMirrored (set_official_seat next seat official).0 seat
unfolding set_official_seat
set_official_seat-IsMirrored next seat official one =
    elim (Bool-cases (any (links seat.id) official)) [
      | inl old ↦
          let (o, e) =
            only_one (keep (links seat.id) official) (ground (arith, any-keep seat.id official))
              one in
          (o.id, rw (old, keep-overwrite seat official, e))
      | inr new ↦ (next, rw new (keep-append_new seat.id next seat official new refl))
    ]

set_official_seat_other :
    (id next : ℕ) (seat : Seat) (official : List Seat)
    → seat.id ≢ id
    → keep (links id) (set_official_seat next seat official).0 ≡ keep (links id) official
unfolding set_official_seat
set_official_seat_other id next seat official e =
    ground (arith, keep-append_other id next seat official, keep-overwrite_other id seat official)

-- The draft seats have different keys.
abbrev pub HasSeatKeys : List Seat → Type 0
HasSeatKeys [] = Unit
HasSeatKeys (seat ∷ seats) = All (λ s. s.id ≢ seat.id) seats × HasSeatKeys seats

set_official_seats_other :
    (id next : ℕ) (seats official : List Seat)
    → All (λ s. s.id ≢ id) seats
    → keep (links id) (set_official_seats next seats official).0 ≡ keep (links id) official
unfolding set_official_seats
set_official_seats_other id next [] official h = refl
set_official_seats_other id next (s ∷ seats) official h =
    let (official', next') = set_official_seat next s official in
    set_official_seats_other id next' seats official' h.1
    ∙ set_official_seat_other id next s official h.0

set_official_seats-IsMirrored :
    (next : ℕ) (seats official : List Seat)
    → HasSeatKeys seats
    → ((s : Seat) → Memᴰ s seats → length (keep (links s.id) official) ≤ 1)
    → (s : Seat) → Memᴰ s seats
    → IsMirrored (set_official_seats next seats official).0 s
unfolding set_official_seats
set_official_seats-IsMirrored next [] official keys ones s m = elim m [ ]
set_official_seats-IsMirrored next (t ∷ seats) official keys ones s (Memᴰ.head e) =
    let (official', next') = set_official_seat next t official in
    let (key, mirrored) = set_official_seat-IsMirrored next t official (ones t (Memᴰ.head refl)) in
    rw e (key, set_official_seats_other t.id next' seats official' keys.0 ∙ mirrored)
set_official_seats-IsMirrored next (t ∷ seats) official keys ones s (Memᴰ.tail m) =
    let (official', next') = set_official_seat next t official in
    set_official_seats-IsMirrored next' seats official' keys.1
      (λ u mu.
        rw
          (set_official_seat_other u.id next t official
            (λ e. All-mem (λ s. s.id ≢ t.id) seats keys.0 mu (sym e)))
          (ones u (Memᴰ.tail mu)))
      s m

-- What the official version of a draft is before the call: none, or a row whose seats belong to at
-- most one draft seat each way.
abbrev pub HasOfficial : CourseRun → Option CourseRun → Type 0
HasOfficial run none = Unit
HasOfficial run (some official) =
    (s : Seat) → Memᴰ s run.seats → length (keep (links s.id) official.seats) ≤ 1

-- The official version has every field of the draft but the key and the draft mark, and for each
-- seat of the draft just one seat, which is a copy of it. The draft's seats have different keys, and
-- each had at most one official version.
pub update_or_create_official_version-mirrors :
    (next : ℕ) (run : CourseRun) (official : Option CourseRun)
    → HasSeatKeys run.seats
    → HasOfficial run official
    → let version = (update_or_create_official_version next run official).0 in
      (version.draft ≡ false)
      × (record version { id = run.id; draft = run.draft; seats = run.seats } ≡ run)
      × ((s : Seat) → Memᴰ s run.seats → IsMirrored version.seats s)
unfolding update_or_create_official_version
update_or_create_official_version-mirrors next run none keys ones =
    (refl, refl, set_official_seats-IsMirrored (next + 1) run.seats [] keys (λ s m. omega arith))
update_or_create_official_version-mirrors next run (some official) keys ones =
    (refl, refl, set_official_seats-IsMirrored next run.seats official.seats keys ones)

All-copies :
    (key : ℕ) (seat : Seat) (official : List Seat)
    → All (λ o. o ≡ copy_of key seat) (keep (links seat.id) official)
    → map (λ o. if links seat.id o then copy_of o.id seat else o) official ≡ official
All-copies key seat [] h = refl
All-copies key seat (o ∷ official) h = elim (Bool-cases (links seat.id o)) [
  | inl e ↦
      let (copied, copies) = cases e h in
      rw e (
        ap₂ (λ x y. x ∷ y) (ap (λ k. copy_of k seat) (ap (λ x. x.id) copied) ∙ sym copied)
          (All-copies key seat official copies))
  | inr e ↦ rw e (ap (λ y. o ∷ y) (All-copies key seat official (rw e at h)))
]
  where
    cases :
        links seat.id o ≡ true
        → All (λ o. o ≡ copy_of key seat) (keep (links seat.id) (o ∷ official))
        → (o ≡ copy_of key seat) × All (λ o. o ≡ copy_of key seat) (keep (links seat.id) official)
    cases e h = rw e at h

set_official_seat_again :
    (next : ℕ) (seat : Seat) (official : List Seat)
    → IsMirrored official seat
    → set_official_seat next seat official ≡ (official, next)
unfolding set_official_seat
set_official_seat_again next seat official (key, e) =
    let found : any (links seat.id) official ≡ true = rw (any-keep seat.id official, e) in
    let same = All-copies key seat official (rw e (refl, tt)) in rw (found, same)

pub set_official_seats_again :
    (next : ℕ) (seats official : List Seat)
    → ((s : Seat) → Memᴰ s seats → IsMirrored official s)
    → set_official_seats next seats official ≡ (official, next)
unfolding set_official_seats
set_official_seats_again next [] official h = refl
set_official_seats_again next (s ∷ seats) official h =
    rw (set_official_seat_again next s official (h s (Memᴰ.head refl)))
      (set_official_seats_again next seats official (λ t m. h t (Memᴰ.tail m)))

-- Making an unchanged draft official once more changes nothing, and creates no row.
pub update_or_create_official_version_idem :
    (next : ℕ) (run : CourseRun) (official : Option CourseRun)
    → HasSeatKeys run.seats
    → HasOfficial run official
    → let (version, next') = update_or_create_official_version next run official in
      update_or_create_official_version next' run (some version) ≡ (version, next')
unfolding update_or_create_official_version
update_or_create_official_version_idem next run none keys ones =
    let (seats, next') = set_official_seats (next + 1) run.seats [] in
    rw (
      set_official_seats_again next' run.seats seats
        (set_official_seats-IsMirrored (next + 1) run.seats [] keys (λ s m. omega arith)))
update_or_create_official_version_idem next run (some official) keys ones =
    let (seats, next') = set_official_seats next run.seats official.seats in
    rw (
      set_official_seats_again next' run.seats seats
        (set_official_seats-IsMirrored next run.seats official.seats keys ones))
