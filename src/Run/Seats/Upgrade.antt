-- ===== src/Run/Seats/Upgrade.antt =====
-- When a paid seat can still be bought, told apart from the sorting that the code does.
use course_discovery_ed_uhk.Base.{
  ℕ, ◌<◌, ◌≤◌, ◌≡◌, refl, Bool, true, false, ◌&&◌, ◌||◌, Option, some, List, [], ◌∷◌, arith, ltb,
  is_some, absent_or, present_and, any, all, ap, sym, ◌∙◌, All, All-mem, sorted_reverse,
  first-sorted_reverse, IsMax,
}
use mathlib.Core.List.{Memᴰ}
use course_discovery_ed_uhk.Run.{Seat, CourseRun, upgrade_deadline}
use course_discovery_ed_uhk.Run.Dates.{enrollment_deadline}
use course_discovery_ed_uhk.Run.Seats.{
  max_moment, upgrade_deadline_sort, enrollable_paid_seats, is_upgradeable, earlier_deadline,
  paid_end,
}

-- A seat that can be bought after `now`, as far as its own deadline goes.
abbrev pub is_open : ℕ → Seat → Bool
is_open now seat = absent_or (λ d. ltb now d) (upgrade_deadline seat)

-- Deadlines lie before the last moment of `datetime`.
abbrev pub IsDated : Seat → Type 0
IsDated seat = (d : ℕ) → upgrade_deadline seat ≡ some d → d < max_moment

abbrev pub has_deadline : Seat → Bool
has_deadline seat = is_some (upgrade_deadline seat)

any_of_mem :
    (p : Seat → Bool) {m : Seat} (seats : List Seat)
    → Memᴰ m seats
    → p m ≡ true
    → any p seats ≡ true
any_of_mem p [] i h = elim i [ ]
any_of_mem p (s ∷ seats) (Memᴰ.head e) h = rw (ap p (sym e) ∙ h)
any_of_mem p (s ∷ seats) (Memᴰ.tail i) h = ground (arith, any_of_mem p seats i h)

all_of_mem :
    (p : Seat → Bool) {m : Seat} (seats : List Seat)
    → Memᴰ m seats
    → p m ≡ false
    → all p seats ≡ false
all_of_mem p [] i h = elim i [ ]
all_of_mem p (s ∷ seats) (Memᴰ.head e) h = rw (ap p (sym e) ∙ h)
all_of_mem p (s ∷ seats) (Memᴰ.tail i) h = ground (arith, all_of_mem p seats i h)

module _ (now : ℕ) (m : Seat) where
  -- No seat is open once the one with the latest deadline is not.
  none_open :
      (seats : List Seat)
      → now < max_moment
      → All (λ s. upgrade_deadline_sort s ≤ upgrade_deadline_sort m) seats
      → is_open now m ≡ false
      → any (is_open now) seats ≡ false
  unfolding upgrade_deadline_sort
  none_open [] early most shut = refl
  none_open (s ∷ seats) early most shut = ground (arith, none_open seats early most.1 shut)

  -- Every seat has a deadline once the one that is put last does.
  all_dated :
      (seats : List Seat)
      → IsDated m
      → All (λ s. upgrade_deadline_sort s ≤ upgrade_deadline_sort m) seats
      → has_deadline m ≡ true
      → all has_deadline seats ≡ true
  unfolding upgrade_deadline_sort
  all_dated [] dated most has = refl
  all_dated (s ∷ seats) dated most has = grind (arith, all_dated seats dated most.1 has)

  -- What `paid_end` says of the moment, once `m` is the seat that the sorting puts first.
  end_from_last :
      (deadline : Option ℕ) (seats : List Seat)
      → now < max_moment
      → IsDated m
      → IsMax upgrade_deadline_sort m seats
      → present_and (λ d. ltb now d) (earlier_deadline (upgrade_deadline m) deadline) ≡ (
          any (is_open now) seats
          && absent_or (λ d. ltb now d) deadline
          && (is_some deadline || all has_deadline seats))
  unfolding earlier_deadline
  end_from_last deadline seats early dated last = ground (
    arith,
    none_open seats early last.greatest,
    any_of_mem (is_open now) seats last.member,
    all_dated seats dated last.greatest,
    all_of_mem has_deadline seats last.member,
  )

paid_end_lem :
    (now : ℕ) (deadline : Option ℕ) (seats : List Seat)
    → now < max_moment
    → All IsDated seats
    → present_and (λ d. ltb now d) (paid_end seats deadline) ≡ (
        any (is_open now) seats
        && absent_or (λ d. ltb now d) deadline
        && (is_some deadline || all has_deadline seats))
unfolding paid_end
paid_end_lem now deadline [] early dated = unfold sorted_reverse in refl
paid_end_lem now deadline (s ∷ seats) early dated =
    let (m, e, last) = first-sorted_reverse upgrade_deadline_sort s seats in
    rw (e, present_and, paid_end)
      (end_from_last now m deadline (s ∷ seats) early
        (All-mem IsDated (s ∷ seats) dated last.member) last)

-- A run can be upgraded at a moment exactly when some paid seat is still open, the enrollment
-- deadline is not reached, and either there is an enrollment deadline or every paid seat has a
-- deadline of its own. The moment and the seats' deadlines lie before the last one of `datetime`.
pub is_upgradeable_iff :
    (now : ℕ) (run : CourseRun)
    → now < max_moment
    → All IsDated (enrollable_paid_seats run)
    → is_upgradeable now run ≡ (
        any (is_open now) (enrollable_paid_seats run)
        && absent_or (λ d. ltb now d) (enrollment_deadline run)
        && (is_some (enrollment_deadline run) || all has_deadline (enrollable_paid_seats run)))
unfolding is_upgradeable
is_upgradeable_iff now run early dated =
    paid_end_lem now (enrollment_deadline run) (enrollable_paid_seats run) early dated
