-- ===== src/Run/Seats.antt =====
-- The seats of a course run: CourseRun._enrollable_paid_seats, has_enrollable_paid_seats,
-- first_enrollable_paid_seat_price and _sku, get_paid_seat_enrollment_end, is_upgradeable,
-- is_current_and_still_upgradeable, enrollable_seats and type_legacy
-- (course_discovery/apps/course_metadata/models.py).
pub mod Upgrade
use course_discovery_ed_uhk.Base.{
  ℕ, String, ◌/◌, Bool, true, false, ◌&&◌, ◌||◌, not, Option, none, some, List, [], ◌∷◌, ltb,
  nat_beq, ◌==◌, string_eq, if◌then◌else◌, absent_or, present_and, keep, any, first, length,
  is_empty, sorted, sorted_reverse,
}
use course_discovery_ed_uhk.Run.{
  Seat, CourseRun, upgrade_deadline, credit, audit, verified, professional,
}
use course_discovery_ed_uhk.Run.Dates.{enrollment_deadline, has_enrollment_ended, is_current}

-- `datetime.datetime.max`
abbrev pub max_moment : ℕ
max_moment = 315_537_897_599_999_999

unfoldable pub upgrade_deadline_sort : Seat → ℕ
upgrade_deadline_sort seat = elim (upgrade_deadline seat) [ none ↦ max_moment | some d ↦ d ]

-- No prerequisites (`Seat.SEATS_WITH_PREREQUISITES` is `[CREDIT]`) and a price above zero.
abbrev pub is_enrollable_paid : Seat → Bool
is_enrollable_paid seat = not (seat.type == credit) && ltb 0 seat.price

unfoldable pub enrollable_paid_seats : CourseRun → List Seat
enrollable_paid_seats run = keep is_enrollable_paid run.seats

unfoldable pub has_enrollable_paid_seats : CourseRun → Bool
unfolding enrollable_paid_seats
has_enrollable_paid_seats run = not (is_empty (enrollable_paid_seats run))

-- `int(price) if price else None`: the cents are cut off
whole_price : Seat → Option ℕ
whole_price seat = if nat_beq seat.price 0 then none else some (seat.price / 100)

unfoldable pub first_enrollable_paid_seat_price : CourseRun → Option ℕ
unfolding enrollable_paid_seats whole_price
first_enrollable_paid_seat_price run =
    elim (first (sorted upgrade_deadline_sort (enrollable_paid_seats run))) [
      | none ↦ none
      | some seat ↦ whole_price seat
    ]

unfoldable pub first_enrollable_paid_seat_sku : CourseRun → Option String
unfolding enrollable_paid_seats
first_enrollable_paid_seat_sku run =
    elim (first (sorted upgrade_deadline_sort (enrollable_paid_seats run))) [
      | none ↦ none
      | some seat ↦ seat.sku
    ]

-- `if seat.upgrade_deadline and (deadline is None or seat.upgrade_deadline < deadline)`
earlier_deadline : Option ℕ → Option ℕ → Option ℕ
earlier_deadline none deadline = deadline
earlier_deadline (some u) none = some u
earlier_deadline (some u) (some d) = if ltb u d then some u else some d

-- The body of `get_paid_seat_enrollment_end`, over the seats and the enrollment deadline.
paid_end : List Seat → Option ℕ → Option ℕ
unfolding earlier_deadline
paid_end seats deadline = elim (first (sorted_reverse upgrade_deadline_sort seats)) [
  | none ↦ none
  | some seat ↦ earlier_deadline (upgrade_deadline seat) deadline
]

unfoldable pub get_paid_seat_enrollment_end : CourseRun → Option ℕ
unfolding paid_end
get_paid_seat_enrollment_end run = paid_end (enrollable_paid_seats run) (enrollment_deadline run)

unfoldable pub is_upgradeable : ℕ → CourseRun → Bool
unfolding get_paid_seat_enrollment_end
is_upgradeable now run =
    present_and (λ deadline. ltb now deadline) (get_paid_seat_enrollment_end run)

unfoldable pub is_current_and_still_upgradeable : ℕ → CourseRun → Bool
unfolding is_upgradeable is_current
is_current_and_still_upgradeable now run = is_current now run && is_upgradeable now run

-- `types` is the list asked for, and `all_types` the table of seat types that stands in for an
-- empty one.
unfoldable pub enrollable_seats :
    (all_types : List String) → ℕ → List String → CourseRun → List Seat
unfolding has_enrollment_ended
enrollable_seats all_types now types run =
    let enrolls_in_future = present_and (λ start. ltb now start) run.enrollment_start in
    let wanted = if is_empty types then all_types else types in
    if has_enrollment_ended now (some now) run || enrolls_in_future
    then []
    else keep
        (λ seat.
          any (λ t. t == seat.type) wanted && absent_or (λ d. ltb now d) (upgrade_deadline seat))
        run.seats
