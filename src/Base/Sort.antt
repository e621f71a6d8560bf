-- ===== src/Base/Sort.antt =====
-- Python's stable `sorted`, by a numeric key, and the element that it puts first.
use Prim.Native.Nat.{ℕ, ◌≤◌}
use mathlib.Core.Path.{◌≡◌, refl}
use mathlib.Core.List.{List, [], ◌∷◌, Memᴰ}
use mathlib.Core.Option.{some, none}
use native.Mathlib.Omega.{arith}
use mathlib.Core.Logic.{inl, inr}
use course_discovery_ed_uhk.Base.Tests.{leb, if◌then◌else◌, Bool-cases}
use course_discovery_ed_uhk.Base.Lists.{first, All}

module _ {ℓ} {A : Type ℓ} (key : A → ℕ) where
  -- `x` goes before the first element whose key is no smaller, so equal keys keep their order.
  insert_asc : A → List A → List A
  insert_asc x [] = x ∷ []
  insert_asc x (y ∷ ys) = if leb (key x) (key y) then x ∷ y ∷ ys else y ∷ insert_asc x ys

  insert_desc : A → List A → List A
  insert_desc x [] = x ∷ []
  insert_desc x (y ∷ ys) = if leb (key y) (key x) then x ∷ y ∷ ys else y ∷ insert_desc x ys

  -- `sorted(xs, key=key)`
  unfoldable pub sorted : List A → List A
  unfolding insert_asc
  sorted [] = []
  sorted (x ∷ xs) = insert_asc x (sorted xs)

  -- `sorted(xs, key=key, reverse=True)`
  unfoldable pub sorted_reverse : List A → List A
  unfolding insert_desc
  sorted_reverse [] = []
  sorted_reverse (x ∷ xs) = insert_desc x (sorted_reverse xs)

  -- `m` is in the list and no key of the list is smaller.
  pub record IsMin (m : A) (xs : List A) : Type ℓ where
    pub member : Memᴰ m xs
    pub least : All (λ x. key m ≤ key x) xs

  pub record IsMax (m : A) (xs : List A) : Type ℓ where
    pub member : Memᴰ m xs
    pub greatest : All (λ x. key x ≤ key m) xs

module _ {ℓ} {A : Type ℓ} (key : A → ℕ) where
  head-insert_asc :
      (x m : A) (xs : List A)
      → first xs ≡ some m
      → first (insert_asc key x xs) ≡ some (if leb (key x) (key m) then x else m)
  unfolding insert_asc
  head-insert_asc x m [] e = cc
  head-insert_asc x m (y ∷ ys) e = ground arith

  head-insert_desc :
      (x m : A) (xs : List A)
      → first xs ≡ some m
      → first (insert_desc key x xs) ≡ some (if leb (key m) (key x) then x else m)
  unfolding insert_desc
  head-insert_desc x m [] e = cc
  head-insert_desc x m (y ∷ ys) e = ground arith

  All-le_trans : (a b : ℕ) (xs : List A) → a ≤ b → All (λ x. b ≤ key x) xs → All (λ x. a ≤ key x) xs
  All-le_trans a b [] h all = tt
  All-le_trans a b (x ∷ xs) h all = (omega arith, All-le_trans a b xs h all.1)

  All-ge_trans : (a b : ℕ) (xs : List A) → b ≤ a → All (λ x. key x ≤ b) xs → All (λ x. key x ≤ a) xs
  All-ge_trans a b [] h all = tt
  All-ge_trans a b (x ∷ xs) h all = (omega arith, All-ge_trans a b xs h all.1)

  -- A sorted list that is not empty begins with a smallest element.
  pub first-sorted :
      (x : A) (xs : List A)
      → (m : A) × (first (sorted key (x ∷ xs)) ≡ some m) × IsMin key m (x ∷ xs)
  unfolding sorted insert_asc
  first-sorted x [] = (x, refl, record { member = Memᴰ.head refl; least = (omega arith, tt) })
  first-sorted x (y ∷ ys) =
      let (m, e, least) = first-sorted y ys in
      elim (Bool-cases (leb (key x) (key m))) [
        | inl le ↦ (
          x,
          rw le at (head-insert_asc x m (sorted key (y ∷ ys)) e),
          record {
            member = Memᴰ.head refl;
            least = (omega arith, All-le_trans (key x) (key m) (y ∷ ys) (ground arith) least.least);
          },
        )
        | inr gt ↦ (
          m,
          rw gt at (head-insert_asc x m (sorted key (y ∷ ys)) e),
          record { member = Memᴰ.tail least.member; least = (ground arith, least.least) },
        )
      ]

  pub first-sorted_reverse :
      (x : A) (xs : List A)
      → (m : A) × (first (sorted_reverse key (x ∷ xs)) ≡ some m) × IsMax key m (x ∷ xs)
  unfolding sorted_reverse insert_desc
  first-sorted_reverse x [] =
      (x, refl, record { member = Memᴰ.head refl; greatest = (omega arith, tt) })
  first-sorted_reverse x (y ∷ ys) =
      let (m, e, most) = first-sorted_reverse y ys in
      elim (Bool-cases (leb (key m) (key x))) [
        | inl le ↦ (
          x,
          rw le at (head-insert_desc x m (sorted_reverse key (y ∷ ys)) e),
          record {
            member = Memᴰ.head refl;
            greatest =
                (omega arith, All-ge_trans (key x) (key m) (y ∷ ys) (ground arith) most.greatest);
          },
        )
        | inr gt ↦ (
          m,
          rw gt at (head-insert_desc x m (sorted_reverse key (y ∷ ys)) e),
          record { member = Memᴰ.tail most.member; greatest = (ground arith, most.greatest) },
        )
      ]

  pub first-sorted_nil : first (sorted key []) ≡ none
  unfolding sorted
  first-sorted_nil = refl

  pub first-sorted_reverse_nil : first (sorted_reverse key []) ≡ none
  unfolding sorted_reverse
  first-sorted_reverse_nil = refl
