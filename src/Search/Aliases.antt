-- ===== src/Search/Aliases.antt =====
-- Where the aliases point after update_index
-- (course_discovery/apps/edx_haystack_extensions/management/commands/update_index.py).
use course_discovery_ed_uhk.Base.{
  ℕ, zero, suc, String, ◌≡◌, refl, sym, ap, ◌∙◌, subst, Bool, true, false, not, ◌||◌, List, [], ◌∷◌,
  map, ◌==◌, is_empty, if◌then◌else◌, Bool-cases, inl, inr, arith, string_eq,
}
use course_discovery_ed_uhk.Search.Update.{
  Alias, Cluster, Env, sanity_check_new_index, targets, contains, promote, check_index,
  check_indexes, run_attempts, prepare_backend_index, aliases_of, handle,
}
use mathlib.Core.List.{Memᴰ}
use course_discovery_ed_uhk.Search.Lookups.{
  contains-keep_self, contains-keep_other, targets-set_alias, targets-set_alias_other, if_either,
  or_false, or_assoc, missing-is_empty, contains-mem, aliases-outcome_of, or_again, in_rest,
}

-- What is known of an alias and its new index, where it was accepted or not.
pub record IsAt (env : Env) (before : List Alias) (accepted : Bool) (alias : String) (s : Cluster)
    : Type 0 where
  pub pending : contains (env.new_index alias) s.indexes_pending ≡ not accepted
  pub points_to :
      targets alias s.aliases
      ≡ (if accepted then env.new_index alias ∷ [] else targets alias before)

-- The test that an attempt makes of the new index of an alias.
unfoldable pub is_accepted : Env → ℕ → String → Bool
unfolding sanity_check_new_index
is_accepted env attempt alias =
    env.disable_change_limit
    || sanity_check_new_index env attempt (env.new_index alias) (env.count 0 alias)

-- Whether an index is accepted in one of the next attempts.
unfoldable pub accepted_in : Env → ℕ → ℕ → String → Bool
unfolding is_accepted
accepted_in env zero attempts a = false
accepted_in env (suc left) attempts a =
    is_accepted env (suc attempts) a || accepted_in env left (suc attempts) a

module _ (env : Env) (before : List Alias)
    (injective : (a b : String) → env.new_index a ≡ env.new_index b → a ≡ b) where
  promote_self :
      (a : String) (s : Cluster) → IsAt env before true a (promote (prepare_backend_index env a) s)
  unfolding promote
  promote_self a s = record {
    pending = contains-keep_self (env.new_index a) s.indexes_pending;
    points_to = targets-set_alias a (env.new_index a) s.aliases;
  }

  new_index-apart : (a c : String) → (a == c) ≡ false → (env.new_index a == env.new_index c) ≡ false
  new_index-apart a c e = elim (Bool-cases (env.new_index a == env.new_index c)) [
    | inl q ↦
        let r : (a == c) ≡ true =
          (string_eq.equals_iff a c).1 (injective a c ((string_eq.equals_iff _ _).0 q)) in
        ground arith
    | inr q ↦ q
  ]

  promote_other :
      (b : Bool) (a c : String) (s : Cluster)
      → (a == c) ≡ false
      → IsAt env before b a s
      → IsAt env before b a (promote (prepare_backend_index env c) s)
  unfolding promote
  promote_other b a c s e k = record {
    pending = contains-keep_other _ _ s.indexes_pending (new_index-apart a c e) ∙ k.pending;
    points_to = targets-set_alias_other a c _ s.aliases e ∙ k.points_to;
  }

  check_other :
      (n : ℕ) (b : Bool) (a c : String) (s : Cluster)
      → (a == c) ≡ false
      → IsAt env before b a s
      → IsAt env before b a (check_index env n (prepare_backend_index env c) s)
  unfolding check_index
  check_other n b a c s e k =
      if_either (IsAt env before b a) _ _ _
        (if_either (IsAt env before b a) _ _ _ (promote_other b a c s e k) k)
        (promote_other b a c s e k)

  check_self :
      (n : ℕ) (b : Bool) (a : String) (s : Cluster)
      → IsAt env before b a s
      → IsAt env before
          (b || is_accepted env n a)
          a
          (check_index env n (prepare_backend_index env a) s)
  unfolding check_index is_accepted
  check_self n true a s k = rw k.pending (promote_self a s)
  check_self n false a s k = elim (Bool-cases env.disable_change_limit) [
    | inl d ↦ simp (k.pending, d) (promote_self a s)
    | inr d ↦ elim (Bool-cases (sanity_check_new_index env n (env.new_index a) (env.count 0 a))) [
      | inl e ↦ simp (k.pending, d, e) (promote_self a s)
      | inr e ↦ simp (k.pending, d, e) k
    ]
  ]

  IsAt-same :
      (n : ℕ) (b : Bool) (a c : String) (s : Cluster)
      → (a == c) ≡ true
      → IsAt env before b a (check_index env n (prepare_backend_index env a) s)
      → IsAt env before b a (check_index env n (prepare_backend_index env c) s)
  IsAt-same n b a c s e =
      subst (λ x. IsAt env before b a (check_index env n (prepare_backend_index env x) s))
        ((string_eq.equals_iff a c).0 e)

  -- An alias that was looked at in this attempt, or is none of the rest.
  checked_stays :
      (n : ℕ) (b : Bool) (a : String) (cs : List String) (s : Cluster)
      → IsAt env before (b || is_accepted env n a) a s
      → IsAt env before
          (b || is_accepted env n a)
          a
          (check_indexes env n (map (prepare_backend_index env) cs) s)
  unfolding check_indexes
  checked_stays n b a [] s k = k
  checked_stays n b a (c ∷ cs) s k = checked_stays n b a cs _ (elim (Bool-cases (a == c)) [
    | inl e ↦ IsAt-same n _ a c s e (
        subst (λ d. IsAt env before d a (check_index env n (prepare_backend_index env a) s))
          (or_again b _) (check_self n (b || is_accepted env n a) a s k))
    | inr e ↦ check_other n _ a c s e k
  ])

  check_indexes_lem :
      (n : ℕ) (b : Bool) (a : String) (cs : List String) (s : Cluster)
      → Memᴰ a cs
      → IsAt env before b a s
      → IsAt env before
          (b || is_accepted env n a)
          a
          (check_indexes env n (map (prepare_backend_index env) cs) s)
  unfolding check_indexes
  check_indexes_lem n b a [] s m k = elim m [ ]
  check_indexes_lem n b a (c ∷ cs) s m k = elim (Bool-cases (a == c)) [
    | inl e ↦ checked_stays n b a cs _ (IsAt-same n _ a c s e (check_self n b a s k))
    | inr e ↦ check_indexes_lem n b a cs _ (in_rest a c cs e m) (check_other n b a c s e k)
  ]

  pub run_attempts_lem :
      (left attempts : ℕ) (b : Bool) (a : String) (cs : List String) (s : Cluster)
      → Memᴰ a cs
      → IsAt env before b a s
      → IsAt env before
          (b || accepted_in env left attempts a)
          a
          (run_attempts left attempts env (map (prepare_backend_index env) cs) s)
  unfolding run_attempts accepted_in
  run_attempts_lem zero attempts b a cs s m k = subst (λ d. IsAt env before d a s) (or_false b) k
  run_attempts_lem (suc left) attempts b a cs s m k =
      elim (Bool-cases (is_empty s.indexes_pending)) [
        | inl e ↦ rw e (
            subst (λ d. IsAt env before d a s)
              (ground (arith, k.pending, missing-is_empty (env.new_index a) s.indexes_pending e)) k)
        | inr e ↦
            rw
              (
                e,
                sym (
                    or_assoc b (is_accepted env (suc attempts) a)
                      (accepted_in env left (suc attempts) a)),
              )
              (run_attempts_lem left (suc attempts) _ a cs _ m
                (check_indexes_lem (suc attempts) b a cs s m k))
      ]

-- Where the name of a new index tells its alias, the alias of each backend points, after the command,
-- to its new index and to nothing else if the check is disabled or the count of the index was sane
-- in one of the two attempts, and to what it pointed to before if not.
pub handle_points_to :
    (env : Env) (backends : List String) (before : List Alias) (a : String)
    → ((x y : String) → env.new_index x ≡ env.new_index y → x ≡ y)
    → Memᴰ a backends
    → targets a (aliases_of (handle env backends before)) ≡ (
        if is_accepted env 1 a || is_accepted env 2 a
        then env.new_index a ∷ []
        else targets a before)
unfolding handle accepted_in
handle_points_to env backends before a injective m =
    let start : Cluster = record {
      aliases = before;
      indexes_pending = map (λ m. m.index) (map (prepare_backend_index env) backends);
    } in
    let k =
      run_attempts_lem env before injective 2 0 false a backends start m
        (record { pending = contains-mem env a backends m; points_to = refl }) in
    ap (targets a) (aliases-outcome_of _)
    ∙ k.points_to
    ∙ rw (sym (or_false (is_accepted env 2 a))) refl
