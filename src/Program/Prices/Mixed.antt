-- ===== src/Program/Prices/Mixed.antt =====
-- Seats of more than one currency in Program._get_total_price_by_currency
-- (course_discovery/apps/course_metadata/models.py).
use course_discovery_ed_uhk.Base.{
  ℕ, ◌≡◌, refl, true, false, not, List, [], ◌∷◌, ◌++◌, any, ◌==◌, string_eq, Bool-cases, inl, inr,
  All,
}
use course_discovery_ed_uhk.Program.{CourseSeat, select_for_total_price}
use course_discovery_ed_uhk.Program.Prices.{select_seat, compare_seats, remove_all}

-- Where the candidate is preferred to none of the seats, none is to be removed.
compare_seats_keeps :
    (now : ℕ) (seat : CourseSeat) (selected : List CourseSeat)
    → All (λ s. select_for_total_price now s seat ≡ false) selected
    → compare_seats now seat selected
      ≡ (any (λ s. not (seat.seat.currency == s.seat.currency)) selected, [])
unfolding compare_seats
compare_seats_keeps now seat [] a = refl
compare_seats_keeps now seat (s ∷ selected) a =
    elim (Bool-cases (seat.seat.currency == s.seat.currency)) [
      | inl e ↦ rw (e, a.0, compare_seats_keeps now seat selected a.1) refl
      | inr e ↦ rw (e, compare_seats_keeps now seat selected a.1) refl
    ]

-- Where a seat of another currency counts for the course, a seat that the code prefers to none of
-- the selected ones counts beside them all, also beside the one of its own currency.
pub select_seat_doubles :
    (now : ℕ) (seat : CourseSeat) (selected : List CourseSeat)
    → any (λ s. not (seat.seat.currency == s.seat.currency)) selected ≡ true
    → All (λ s. select_for_total_price now s seat ≡ false) selected
    → select_seat now seat selected ≡ (selected ++ seat ∷ [])
unfolding select_seat remove_all
select_seat_doubles now seat [] h a = refl
select_seat_doubles now seat (s ∷ selected) h a =
    rw (compare_seats_keeps now seat (s ∷ selected) a, h) refl
