-- ===== src/Search/Unused.antt =====
-- remove_unused_indexes (course_discovery/apps/edx_haystack_extensions/management/commands/remove_unused_indexes.py).
-- The keys of a dictionary are a list without repetition. The order in which Python lists a set of
-- texts is a parameter, since it changes from run to run.
use course_discovery_ed_uhk.Base.{
  ◌++◌, ℕ, zero, suc, ◌-◌, ◌≤◌, String, ◌≡◌, refl, ap, ◌∙◌, Bool, true, not, ◌&&◌, List, [], ◌∷◌,
  keep, length, ltb, if◌then◌else◌, mem-keep, keep-keep, Bool-cases, inl, inr, arith, string_eq,
  All, All-of_mem,
}
use Prim.Native.String.{compare, ◌++◌ as append}
use course_discovery_ed_uhk.Search.Update.{contains}
use text.Mathlib.Text.{is_le, starts_with}
use mathlib.Core.List.Memᴰ
use mathlib.Core.List.{Memᴰ}

-- `sorted` on texts
insert_name : String → List String → List String
insert_name x [] = x ∷ []
insert_name x (y ∷ ys) = if is_le (compare x y) then x ∷ y ∷ ys else y ∷ insert_name x ys

unfoldable pub sort_names : List String → List String
unfolding insert_name
sort_names [] = []
sort_names (x ∷ xs) = insert_name x (sort_names xs)

unfoldable pub get_indexes_sorted_by_timestamp :
    (all_indexes : List String) → (index_prefix : String) → List String
unfolding sort_names
get_indexes_sorted_by_timestamp all_indexes index_prefix =
    sort_names (keep (λ name. starts_with name (append index_prefix "_")) all_indexes)

-- `xs[:n]`
abbrev pub take : ℕ → List String → List String
take zero xs = []
take (suc n) [] = []
take (suc n) (x ∷ xs) = x ∷ take n xs

-- The indexes that are deleted, given those that the alias refers to.
unfoldable pub remove_unused_indexes :
    (list_set : List String → List String)
    → (retention_limit : ℕ) → (all_indexes current_alias : List String)
    → (current_alias_name : String) → List String
unfolding get_indexes_sorted_by_timestamp
remove_unused_indexes list_set retention_limit all_indexes current_alias current_alias_name =
    let sorted_indexes = get_indexes_sorted_by_timestamp all_indexes current_alias_name in
    let unused = list_set (keep (λ name. not (contains name current_alias)) sorted_indexes) in
    if ltb retention_limit (length unused)
    then take (length unused - retention_limit) unused
    else []

take_all : (k : ℕ) (xs : List String) → k ≤ length xs → length (take k xs) ≡ k
take_all zero xs h = refl
take_all (suc k) [] h = omega arith
take_all (suc k) (x ∷ xs) h = ap suc (take_all k xs (omega arith))

length-take :
    (n : ℕ) (xs : List String)
    → ltb n (length xs) ≡ true
    → length (take (length xs - n) xs) ≡ length xs - n
length-take n xs h = take_all (length xs - n) xs (omega arith)

mem-take : (n : ℕ) {x : String} (xs : List String) → Memᴰ x (take n xs) → Memᴰ x xs
mem-take zero xs m = elim m [ ]
mem-take (suc n) [] m = elim m [ ]
mem-take (suc n) (y ∷ ys) (Memᴰ.head e) = Memᴰ.head e
mem-take (suc n) (y ∷ ys) (Memᴰ.tail m) = Memᴰ.tail (mem-take n ys m)

length-keep-insert :
    (p : String → Bool) (x : String) (xs : List String)
    → length (keep p (insert_name x xs)) ≡ length (keep p (x ∷ xs))
unfolding insert_name
length-keep-insert p x [] = refl
length-keep-insert p x (y ∷ ys) = ground (arith, length-keep-insert p x ys)

length-keep-sort :
    (p : String → Bool) (xs : List String) → length (keep p (sort_names xs)) ≡ length (keep p xs)
unfolding sort_names
length-keep-sort p [] = refl
length-keep-sort p (x ∷ xs) =
    length-keep-insert p x (sort_names xs) ∙ ground (arith, length-keep-sort p xs)

mem-insert :
    (x : String) {y : String} (xs : List String) → Memᴰ y (insert_name x xs) → Memᴰ y (x ∷ xs)
unfolding insert_name
mem-insert x [] m = m
mem-insert x (z ∷ zs) m = elim (Bool-cases (is_le (compare x z))) [
  | inl e ↦ rw e at m
  | inr e ↦ elim (Memᴰ.cases_cons (rw e at m)) [
    | inl q ↦ Memᴰ.tail (Memᴰ.head q)
    | inr r ↦ elim (Memᴰ.cases_cons (mem-insert x zs r)) [
      | inl q ↦ Memᴰ.head q
      | inr t ↦ Memᴰ.tail (Memᴰ.tail t)
    ]
  ]
]

mem-sort : {y : String} (xs : List String) → Memᴰ y (sort_names xs) → Memᴰ y xs
unfolding sort_names
mem-sort [] m = m
mem-sort (x ∷ xs) m = elim (Memᴰ.cases_cons (mem-insert x (sort_names xs) m)) [
  | inl q ↦ Memᴰ.head q
  | inr r ↦ Memᴰ.tail (mem-sort xs r)
]

-- An index that the command may delete: one of the alias's indexes to which the alias does not refer.
abbrev pub is_unused : (current_alias : List String) → (current_alias_name : String) → String → Bool
is_unused current_alias current_alias_name name =
    starts_with name (append current_alias_name "_") && not (contains name current_alias)

-- Whatever order a set is listed in, as long as the list has its elements and their number: what is
-- deleted are indexes with the prefix of the alias to which the alias does not refer, and as many of
-- them as exceed the limit, so that none is deleted where there are no more than that.
pub remove_unused_indexes_lem :
    (list_set : List String → List String) (limit : ℕ) (all_indexes current_alias : List String)
    (name : String)
    → ((xs : List String) → length (list_set xs) ≡ length xs)
    → ((x : String) (xs : List String) → Memᴰ x (list_set xs) → Memᴰ x xs)
    → (length (remove_unused_indexes list_set limit all_indexes current_alias name)
        ≡ length (keep (is_unused current_alias name) all_indexes) - limit)
      × All
          (λ x. Memᴰ x all_indexes × (is_unused current_alias name x ≡ true))
          (remove_unused_indexes list_set limit all_indexes current_alias name)
unfolding remove_unused_indexes get_indexes_sorted_by_timestamp
remove_unused_indexes_lem list_set limit all_indexes current_alias name size elements =
    let prefixed : List String = keep (λ x. starts_with x (append name "_")) all_indexes in
    let unused : List String =
      list_set (keep (λ x. not (contains x current_alias)) (sort_names prefixed)) in
    let count : length unused ≡ length (keep (is_unused current_alias name) all_indexes) =
      size _ ∙ length-keep-sort _ prefixed ∙ ap length (keep-keep _ _ all_indexes) in
    let good : (x : String)
        → Memᴰ x unused
        → Memᴰ x all_indexes × (is_unused current_alias name x ≡ true) =
      (λ x m.
        let (sorted_in, free) = mem-keep _ (sort_names prefixed) (elements x _ m) in
        let (listed, begins) = mem-keep _ all_indexes (mem-sort prefixed sorted_in) in
        (listed, ground (arith, free, begins))) in
    elim (Bool-cases (ltb limit (length unused))) [
      | inl e ↦ rw e (
        length-take limit unused e ∙ ap (λ n. n - limit) count,
        All-of_mem _ _ (λ x m. good x (mem-take _ unused m)),
      )
      | inr e ↦ let few : length unused ≤ limit = ground arith in rw e (omega (arith, count), tt)
    ]

-- The command on the backends, named by their aliases, with what each alias refers to.
unfoldable pub delete_unused :
    (List String → List String)
    → (retention_limit : ℕ) → (all_indexes : List String) → (backends : List (String × List String))
    → List String
unfolding remove_unused_indexes
delete_unused list_set limit all_indexes [] = []
delete_unused list_set limit all_indexes ((alias, current_alias) ∷ backends) =
    remove_unused_indexes list_set limit all_indexes current_alias alias
    ++ delete_unused list_set limit all_indexes backends
