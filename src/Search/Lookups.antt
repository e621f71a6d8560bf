-- ===== src/Search/Lookups.antt =====
-- The lists of aliases and of pending indexes of update_index
-- (course_discovery/apps/edx_haystack_extensions/management/commands/update_index.py).
use course_discovery_ed_uhk.Base.{
  String, ◌≡◌, refl, sym, ap, ◌∙◌, Bool, true, false, not, ◌&&◌, ◌||◌, List, [], ◌∷◌, map, ◌==◌,
  keep, is_empty, if◌then◌else◌, Bool-cases, inl, inr, arith, string_eq,
}
use course_discovery_ed_uhk.Search.Update.{
  Alias, Cluster, Env, targets, set_alias, contains, prepare_backend_index, aliases_of, outcome_of,
}
use mathlib.Core.List.{Memᴰ}

beq_self : (a : String) → (a == a) ≡ true
beq_self a = (string_eq.equals_iff a a).1 refl

swap_beq : (i j : String) → (i == j) ≡ false → (j == i) ≡ false
swap_beq i j e = elim (Bool-cases (j == i)) [
  | inl q ↦
      let r : (i == j) ≡ true =
        (string_eq.equals_iff i j).1 (sym ((string_eq.equals_iff j i).0 q)) in
      ground arith
  | inr q ↦ q
]

separate : (x i j : String) → (i == j) ≡ false → ((x == i) && (x == j)) ≡ false
separate x i j e = elim (Bool-cases (x == i)) [
  | inl p ↦ elim (Bool-cases (x == j)) [
    | inl q ↦
        let r : (i == j) ≡ true =
          (string_eq.equals_iff i j).1
            (sym ((string_eq.equals_iff x i).0 p) ∙ (string_eq.equals_iff x j).0 q) in
        ground arith
    | inr q ↦ ground arith
  ]
  | inr p ↦ ground arith
]

pub contains-keep_self :
    (i : String) (xs : List String) → contains i (keep (λ x. not (x == i)) xs) ≡ false
contains-keep_self i [] = refl
contains-keep_self i (x ∷ xs) = ground (arith, contains-keep_self i xs)

pub contains-keep_other :
    (i j : String) (xs : List String)
    → (i == j) ≡ false
    → contains i (keep (λ x. not (x == j)) xs) ≡ contains i xs
contains-keep_other i j [] e = refl
contains-keep_other i j (x ∷ xs) e = ground (arith, separate x i j e, contains-keep_other i j xs e)

targets-keep_self :
    (n : String) (xs : List Alias) → targets n (keep (λ a. not (a.name == n)) xs) ≡ []
targets-keep_self n [] = refl
targets-keep_self n (x ∷ xs) = ground (arith, targets-keep_self n xs)

targets-keep_other :
    (n m : String) (xs : List Alias)
    → (n == m) ≡ false
    → targets n (keep (λ a. not (a.name == m)) xs) ≡ targets n xs
targets-keep_other n m [] e = refl
targets-keep_other n m (x ∷ xs) e =
    ground (arith, separate x.name n m e, targets-keep_other n m xs e)

pub targets-set_alias : (n i : String) (xs : List Alias) → targets n (set_alias n i xs) ≡ i ∷ []
unfolding set_alias
targets-set_alias n i xs = rw (beq_self n) (ap (λ r. i ∷ r) (targets-keep_self n xs))

pub targets-set_alias_other :
    (n m i : String) (xs : List Alias)
    → (n == m) ≡ false
    → targets n (set_alias m i xs) ≡ targets n xs
unfolding set_alias
targets-set_alias_other n m i xs e =
    ground (arith, separate m n m, targets-keep_other n m xs e, swap_beq n m e)

pub if_either :
    (P : Cluster → Type 0) (b : Bool) (s t : Cluster) → P s → P t → P (if b then s else t)
if_either P true s t h k = h
if_either P false s t h k = k

pub or_false : (b : Bool) → b ≡ (b || false)
or_false b = ground arith

pub or_assoc : (b c d : Bool) → ((b || c) || d) ≡ (b || (c || d))
or_assoc b c d = ground arith

pub missing-is_empty : (x : String) (xs : List String) → is_empty xs ≡ true → contains x xs ≡ false
missing-is_empty x [] e = refl
missing-is_empty x (y ∷ ys) e = ground arith

pub contains-mem :
    (env : Env) (a : String) (cs : List String)
    → Memᴰ a cs
    → contains (env.new_index a) (map (λ m. m.index) (map (prepare_backend_index env) cs)) ≡ true
contains-mem env a [] m = elim m [ ]
contains-mem env a (c ∷ cs) (Memᴰ.head q) = ground (
  arith,
  (string_eq.equals_iff (env.new_index c) (env.new_index a)).1 (ap (λ x. env.new_index x) (sym q)),
)
contains-mem env a (c ∷ cs) (Memᴰ.tail m) = ground (arith, contains-mem env a cs m)

pub aliases-outcome_of : (s : Cluster) → aliases_of (outcome_of s) ≡ s.aliases
aliases-outcome_of s = ground arith

pub or_again : (b c : Bool) → ((b || c) || c) ≡ (b || c)
or_again b c = ground arith

pub in_rest : (a c : String) (cs : List String) → (a == c) ≡ false → Memᴰ a (c ∷ cs) → Memᴰ a cs
in_rest a c cs e (Memᴰ.head q) = absurd (ground (arith, e, (string_eq.equals_iff a c).1 q))
in_rest a c cs e (Memᴰ.tail m) = m
