-- ===== src/Run/SeatUpdate.antt =====
-- CourseRun.update_or_create_seats with validate_seat_upgrade, get_seat_upgrade_deadline and
-- update_or_create_seat_helper (course_discovery/apps/course_metadata/models.py), and
-- subtract_deadline_delta (course_discovery/apps/course_metadata/utils.py), on the seats of a draft
-- course run. Keys of new rows come from a counter, and a set is a list without repetitions.
pub mod Types
use course_discovery_ed_uhk.Base.{
  ℕ, ◌+◌, ◌-◌, ◌*◌, ◌/◌, zero, suc, String, Bool, true, false, ◌&&◌, ◌||◌, not, Option, none, some,
  List, [], ◌∷◌, ◌++◌, map, ◌==◌, string_eq, ltb, if◌then◌else◌, any, all, keep, first, length,
  or_else,
}
use course_discovery_ed_uhk.Run.{
  Seat, CourseRun, upgrade_deadline, set_upgrade_deadline, audit, verified,
}
use course_discovery_ed_uhk.Run.Dates.{day}

pub data Result {ℓ} (A : Type ℓ) : Type ℓ where
  ok : A → Result A
  validation_error type_error overflow_error multiple_objects_returned : Result A

infixl 5 ◌>>=◌ ◌>>◌
abbrev pub ◌>>=◌ {ℓ₁ ℓ₂} : {T : Type ℓ₁} {U : Type ℓ₂} → Result T → (T → Result U) → Result U
validation_error >>= next = validation_error
type_error >>= next = type_error
overflow_error >>= next = overflow_error
multiple_objects_returned >>= next = multiple_objects_returned
ok value >>= next = next value

abbrev pub ◌>>◌ {ℓ₁} : {U : Type ℓ₁} → Result (Unit {0}) → Result U → Result U
check >> next = check >>= λ _. next

-- Whether a slug is in a collection of slugs.
abbrev pub has : List String → String → Bool
has slugs slug = any (λ s. s == slug) slugs

-- `{track.seat_type for track in run_type.tracks.exclude(seat_type=None)}`
unfoldable pub seat_types : List (Option String) → List String
seat_types [] = []
seat_types (none ∷ tracks) = seat_types tracks
seat_types (some slug ∷ tracks) =
    let types = seat_types tracks in if has types slug then types else slug ∷ types

-- `official` are the types of the seats of the official version, if there is one.
unfoldable pub validate_seat_upgrade : Option (List String) → List String → Result (Unit {0})
validate_seat_upgrade none types = ok tt
validate_seat_upgrade (some old_types) types =
    let new_types = if has types verified then audit ∷ types else types in
    if all (λ slug. has new_types slug) old_types then ok tt else validation_error

-- Midnight minus a bit: 23:59:59.099999 of the day `delta` days before. Dates begin with day 0.
unfoldable pub subtract_deadline_delta : Option ℕ → ℕ → Result ℕ
subtract_deadline_delta none delta = type_error
subtract_deadline_delta (some end) delta =
    if ltb (day end) delta
    then overflow_error
    else ok ((day end - delta) * 86_400_000_000 + 86_399_099_999)

abbrev pub of_type : String → Seat → Bool
of_type slug seat = seat.type == slug

-- `prices[seat_type.slug]`, where it is there
abbrev pub price_of : List (String × ℕ) → String → Option ℕ
price_of [] slug = none
price_of ((s, price) ∷ prices) slug = if s == slug then some price else price_of prices slug

-- The `defaults` that are assigned to a row.
abbrev pub with_defaults : Option ℕ → Option ℕ → Seat → Seat
with_defaults deadline none seat = set_upgrade_deadline deadline seat
with_defaults deadline (some price) seat = record (set_upgrade_deadline deadline seat) {
  price = price;
}

abbrev pub new_seat : ℕ → String → Seat
new_seat key slug = record {
  id = key;
  type = slug;
  price = 0;
  currency = "USD";
  stored_upgrade_deadline = none;
  upgrade_deadline_override = none;
  sku = none;
  draft_version = none;
}

-- `Seat.everything.update_or_create(...)`, by the number of seats of the type
pub write_seat : ℕ → ℕ → Option ℕ → Option ℕ → String → List Seat → Result (List Seat × ℕ)
write_seat zero next deadline price slug seats =
    ok (seats ++ with_defaults deadline price (new_seat next slug) ∷ [], next + 1)
write_seat (suc zero) next deadline price slug seats = ok (
  map (λ seat. if of_type slug seat then with_defaults deadline price seat else seat) seats,
  next,
)
write_seat (suc (suc _)) next deadline price slug seats = multiple_objects_returned

module _ (deadline_days : ℕ) (end : Option ℕ) where
  unfoldable pub get_seat_upgrade_deadline : String → List Seat → Result (Option ℕ)
  unfolding subtract_deadline_delta
  get_seat_upgrade_deadline slug seats =
      let computed = subtract_deadline_delta end deadline_days >>= λ d. ok (some d) in
      if slug == verified
      then elim (first (keep (of_type slug) seats)) [
        | some seat ↦ ok (upgrade_deadline seat)
        | none ↦ computed
      ]
      else ok none

  unfoldable pub update_or_create_seat_helper :
      List (String × ℕ) → ℕ → String → List Seat → Result (List Seat × ℕ)
  unfolding get_seat_upgrade_deadline write_seat
  update_or_create_seat_helper prices next slug seats = do
    deadline ← get_seat_upgrade_deadline slug seats
    write_seat (length (keep (of_type slug) seats)) next deadline (price_of prices slug) slug seats

  -- `for seat_type in seat_types: ...`
  pub update_seats : List (String × ℕ) → ℕ → List String → List Seat → Result (List Seat × ℕ)
  unfolding update_or_create_seat_helper
  update_seats prices next [] seats = ok (seats, next)
  update_seats prices next (slug ∷ types) seats = do
    (seats', next') ← update_or_create_seat_helper prices next slug seats
    update_seats prices next' types seats'

  unfoldable pub update_or_create_seats :
      Option (List String)
      → List (Option String)
      → List (String × ℕ)
      → ℕ
      → List Seat
      → Result (List Seat × ℕ)
  unfolding update_seats seat_types validate_seat_upgrade
  update_or_create_seats official tracks prices next seats = do
    let types = seat_types tracks
    validate_seat_upgrade official types
    (seats', next') ← update_seats prices next types seats
    ok (keep (λ seat. has types seat.type) seats', next')
