-- ===== src/Examples/Search.antt =====
-- Examples for the commands on the search indexes.
use mathlib.Core.List.{Memᴰ}
use course_discovery_ed_uhk.Base.{
  ◌-◌, String, ◌≡◌, refl, true, false, ◌||◌, List, [], ◌∷◌, string_eq, nat_beq, length, keep, all,
  All, if◌then◌else◌,
}
use course_discovery_ed_uhk.Search.Update.{Alias, Env, targets, aliases_of, handle}
use course_discovery_ed_uhk.Search.Aliases.{is_accepted, handle_points_to}
use course_discovery_ed_uhk.Search.Pending.{is_done, handle_done_iff}
use course_discovery_ed_uhk.Search.Unused.{
  is_unused, remove_unused_indexes, remove_unused_indexes_lem,
}
use Prim.Native.String.{◌++◌ as append}
use text.Mathlib.TextLemmas.{append_cancel_right}

-- 100 records before, 50 after the first attempt and 95 after the second.
abbrev env : Env
env = record {
  threshold = record { numerator = 1; denominator = 10 };
  disable_change_limit = false;
  count = λ attempt index. if nat_beq attempt 0 then 100 else if nat_beq attempt 1 then 50 else 95;
  new_index = λ alias. append alias "_20200203_040506";
}

abbrev before : List Alias
before = record { name = "catalog"; index = "catalog_20200101_000000" } ∷ []

handle_points_to_example : targets "catalog" (aliases_of (handle env ("catalog" ∷ []) before)) ≡ (
    if is_accepted env 1 "catalog" || is_accepted env 2 "catalog"
    then env.new_index "catalog" ∷ []
    else targets "catalog" before)
handle_points_to_example =
    handle_points_to env ("catalog" ∷ []) before "catalog"
      (λ x y e. append_cancel_right x y "_20200203_040506" e) (Memᴰ.head refl)

handle_done_iff_example :
    is_done (handle env ("catalog" ∷ []) before)
    ≡ all (λ a. is_accepted env 1 a || is_accepted env 2 a) ("catalog" ∷ [])
handle_done_iff_example =
    handle_done_iff env ("catalog" ∷ []) before
      (λ x y e. append_cancel_right x y "_20200203_040506" e)

abbrev indexes : List String
indexes = "catalog_3" ∷ "catalog_1" ∷ "other_1" ∷ "catalog_2" ∷ "catalog_4" ∷ []

remove_unused_indexes_lem_example :
    (length (remove_unused_indexes (λ xs. xs) 1 indexes ("catalog_4" ∷ []) "catalog")
      ≡ length (keep (is_unused ("catalog_4" ∷ []) "catalog") indexes) - 1)
    × All
        (λ x. Memᴰ x indexes × (is_unused ("catalog_4" ∷ []) "catalog" x ≡ true))
        (remove_unused_indexes (λ xs. xs) 1 indexes ("catalog_4" ∷ []) "catalog")
remove_unused_indexes_lem_example =
    remove_unused_indexes_lem (λ xs. xs) 1 indexes ("catalog_4" ∷ []) "catalog" (λ xs. refl)
      (λ x xs m. m)

-- The second attempt moves the alias; two of the three unused indexes are deleted, the oldest first
-- where the set is listed in order.
second_attempt :
    targets "catalog" (aliases_of (handle env ("catalog" ∷ []) before))
    ≡ "catalog_20200203_040506" ∷ []
unfolding handle
second_attempt = refl

two_deleted :
    remove_unused_indexes (λ xs. xs) 1 indexes ("catalog_4" ∷ []) "catalog"
    ≡ "catalog_1" ∷ "catalog_2" ∷ []
unfolding remove_unused_indexes
two_deleted = refl
