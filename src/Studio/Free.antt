-- ===== src/Studio/Free.antt =====
-- The next run is the first free one, and there is one.
use course_discovery_ed_uhk.Base.{
  ℕ, zero, suc, ◌+◌, ◌≤◌, ◌<◌, ◌≡◌, refl, subst, true, false, some, List, [], ◌∷◌, arith, keep, leb,
  nat_beq, nat_beq_iff, length, Bool-cases, inl, inr,
}
use course_discovery_ed_uhk.Studio.{
  RunName, same_name, is_taken, get_next_run, trimester_of, calculate_course_run_key_run_value,
}

abbrev pub named : ℕ → ℕ → ℕ → RunName
named t y k = record { trimester = t; year = y; suffix = k }

-- The runs whose suffix is not before the given one.
abbrev left : ℕ → List RunName → List RunName
left k runs = keep (λ r. leb k r.suffix) runs

left_fewer : (k : ℕ) (runs : List RunName) → length (left (k + 1) runs) ≤ length (left k runs)
left_fewer k [] = ground arith
left_fewer k (r ∷ runs) = let again = left_fewer k runs in ground (arith, again)

left_taken :
    (t y k : ℕ) (runs : List RunName)
    → is_taken (named t y k) runs ≡ true
    → length (left (k + 1) runs) < length (left k runs)
left_taken t y k [] h = absurd (ground (arith, h))
left_taken t y k (r ∷ runs) h =
    let fewer = left_fewer k runs in
    elim (Bool-cases (same_name (named t y k) r)) [
      | inl e ↦ ground (arith, e, fewer, nat_beq_iff k r.suffix)
      | inr e ↦ let again = left_taken t y k runs (rw e at h) in ground (arith, again)
    ]

-- The candidate from a suffix on that is free, with all between taken.
abbrev IsFirstFree : ℕ → ℕ → ℕ → List RunName → ℕ → Type 0
IsFirstFree t y from runs k =
    (from ≤ k)
    × ((is_taken (named t y k) runs ≡ false)
        × ((j : ℕ) → from ≤ j → j < k → is_taken (named t y j) runs ≡ true))

next_first :
    (fuel t y from : ℕ) (runs : List RunName)
    → length (left from runs) < fuel
    → (k : ℕ) × ((get_next_run fuel (named t y from) runs ≡ some (named t y k))
        × IsFirstFree t y from runs k)
unfolding get_next_run
next_first zero t y from runs h = absurd (omega (arith, h))
next_first (suc fuel) t y from runs h = elim (Bool-cases (is_taken (named t y from) runs)) [
  | inr e ↦ (from, (rw e refl, (omega arith, (e, λ j l u. absurd (omega (arith, l, u))))))
  | inl e ↦
      let (k, (found, (l, (free, taken)))) =
        next_first fuel t y (from + 1) runs (omega (arith, left_taken t y from runs e, h)) in
      (
        k,
        (
          rw e found,
          (
            omega (arith, l),
            (
              free,
              λ j low up. elim (Bool-cases (nat_beq from j)) [
                | inl same ↦
                    let q : from ≡ j = (nat_beq_iff from j).0 same in
                    subst (λ i. is_taken (named t y i) runs ≡ true) q e
                | inr other ↦ taken j (ground (arith, low, other)) up
              ],
            ),
          ),
        ),
      )
]

left_all : (runs : List RunName) → length (left 0 runs) ≤ length runs
left_all [] = ground arith
left_all (r ∷ runs) = let rest = left_all runs in ground (arith, rest)

-- A name for the next run is always found: it is that of the trimester and the year with the first
-- suffix that no related run has.
pub calculate_course_run_key_run_value_total :
    (month year : ℕ) (runs : List RunName)
    → (k : ℕ) × ((calculate_course_run_key_run_value month year runs
          ≡ some (named (trimester_of month) year k))
        × ((is_taken (named (trimester_of month) year k) runs ≡ false)
            × ((j : ℕ) → j < k → is_taken (named (trimester_of month) year j) runs ≡ true)))
unfolding calculate_course_run_key_run_value
calculate_course_run_key_run_value_total month year runs =
    let (k, (found, (_, (free, taken)))) =
      next_first (length runs + 1) (trimester_of month) year 0 runs
        (omega (arith, left_all runs)) in
    (k, (found, (free, λ j below. taken j (omega arith) below)))
