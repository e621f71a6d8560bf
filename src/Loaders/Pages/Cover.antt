-- ===== src/Loaders/Pages/Cover.antt =====
-- The pages that are requested hold every result, and none of them is empty.
use mathlib.Core.List.{Memᴰ}
use course_discovery_ed_uhk.Base.{
  ℕ, zero, suc, ◌+◌, ◌-◌, ◌*◌, ◌/◌, ◌≤◌, ◌<◌, ◌≡◌, ◌↔◌, ◌⊎◌, inl, inr, ap, ◌∷◌, arith,
}
use native.Mathlib.Nat.{le-div_iff_mul-le, mul-div_left, div-mul-le_self}
use course_discovery_ed_uhk.Loaders.Pages.{pages, count_up, pagerange}

le_cases : (a b : ℕ) → a ≤ b → (b ≡ a) ⊎ (a + 1 ≤ b)
le_cases a b h = grind arith

mem-count_up : (start n p : ℕ) → start ≤ p → p < start + n → Memᴰ p (count_up start n)
unfolding count_up
mem-count_up start zero p l h = absurd (omega arith)
mem-count_up start (suc n) p l h = elim (le_cases start p l) [
  | inl e ↦ Memᴰ.head e
  | inr l' ↦ Memᴰ.tail (mem-count_up (start + 1) n p l' (omega arith))
]

count_up-mem : (start n p : ℕ) → Memᴰ p (count_up start n) → (start ≤ p) × (p < start + n)
unfolding count_up
count_up-mem start zero p m = elim m [ ]
count_up-mem start (suc n) p (Memᴰ.head e) = omega arith
count_up-mem start (suc n) p (Memᴰ.tail m) = omega (arith, count_up-mem (start + 1) n p m)

pred-mul : (p k : ℕ) → 0 < p → (p - 1) * k + k ≡ p * k
pred-mul zero k h = elim h [ ]
pred-mul (suc q) k h = grind arith

last_result : (k count p b a : ℕ) → 0 < k → b + k ≡ a → a ≤ count + k - 1 → b < count
last_result k count p b a h e u = omega arith

-- A page is the first one or in the range exactly when it is the page of some result.
pub pagerange_bounds :
    (page_size count p : ℕ)
    → 0 < page_size
    → Memᴰ p (1 ∷ pagerange page_size count)
      ↔ ((p ≡ 1) ⊎ ((i : ℕ) × ((i < count) × (p ≡ i / page_size + 1))))
unfolding pagerange pages
pagerange_bounds k count p h = (there, back)
  where
    there : Memᴰ p (1 ∷ pagerange k count) → (p ≡ 1) ⊎ ((i : ℕ) × ((i < count) × (p ≡ i / k + 1)))
    there (Memᴰ.head e) = inl e
    there (Memᴰ.tail m) =
        let (lo, hi) = count_up-mem 2 (pages k count - 1) p m in
        let up : p * k ≤ count + k - 1 = (le-div_iff_mul-le h).0 (omega (arith, lo, hi)) in
        let before : (p - 1) * k < count =
          last_result k count p ((p - 1) * k) (p * k) h (pred-mul p k (omega (arith, lo))) up in
        let quotient : (p - 1) * k / k ≡ p - 1 = mul-div_left (p - 1) h in
        inr ((p - 1) * k, (before, omega (arith, quotient, lo)))

    back : (p ≡ 1) ⊎ ((i : ℕ) × ((i < count) × (p ≡ i / k + 1))) → Memᴰ p (1 ∷ pagerange k count)
    back (inl e) = Memᴰ.head e
    back (inr (i, (l, e))) = elim (le_cases 1 p (omega (arith, e))) [
      | inl one ↦ Memᴰ.head one
      | inr two ↦
          let below : (i / k) * k ≤ i = div-mul-le_self i k in
          let split : (p - 1) * k + k ≡ p * k = pred-mul p k (omega (arith, two)) in
          let shift : p - 1 ≡ i / k = omega (arith, e) in
          let up : p * k ≤ count + k - 1 = rewritten (p - 1) (i / k) shift split below in
          let le : p ≤ pages k count = (le-div_iff_mul-le h).1 up in
          Memᴰ.tail (mem-count_up 2 (pages k count - 1) p two (omega (arith, two, le)))
    ]
      where
        rewritten : (a b : ℕ) → a ≡ b → a * k + k ≡ p * k → b * k ≤ i → p * k ≤ count + k - 1
        rewritten a b e' s' b' =
            let t : a * k ≡ b * k = ap (λ x. x * k) e' in omega (arith, t, s', b', l, h)
