-- ===== src/Search/Pending.antt =====
-- When update_index ends in an error
-- (course_discovery/apps/edx_haystack_extensions/management/commands/update_index.py).
use course_discovery_ed_uhk.Base.{
  ℕ, zero, suc, String, ◌≡◌, refl, sym, ap, ◌∙◌, Bool, true, false, not, ◌||◌, List, [], ◌∷◌, map,
  all, is_empty, if◌then◌else◌, All, All-of_mem, All-mem, mem-keep, Bool-cases, inl, inr, arith,
  string_eq,
}
use course_discovery_ed_uhk.Search.Update.{
  Alias, Cluster, Env, AliasMapping, contains, promote, check_index, check_indexes, run_attempts,
  prepare_backend_index, Outcome, done, command_error, outcome_of, handle,
}
use course_discovery_ed_uhk.Search.Lookups.{contains-mem}
use course_discovery_ed_uhk.Search.Aliases.{is_accepted, accepted_in, run_attempts_lem}
use mathlib.Core.List.{Memᴰ}

abbrev pub is_done : Outcome → Bool
is_done (done aliases) = true
is_done (command_error aliases) = false

is_done-outcome_of : (s : Cluster) → is_done (outcome_of s) ≡ is_empty s.indexes_pending
is_done-outcome_of s = ground arith

all_of_mem :
    (p : String → Bool) (cs : List String)
    → ((a : String) → Memᴰ a cs → p a ≡ true)
    → all p cs ≡ true
all_of_mem p [] h = refl
all_of_mem p (c ∷ cs) h = rw (h c (Memᴰ.head refl)) (all_of_mem p cs (λ a m. h a (Memᴰ.tail m)))

all-mem :
    (p : String → Bool) (a : String) (cs : List String) → Memᴰ a cs → all p cs ≡ true → p a ≡ true
all-mem p a [] m h = elim m [ ]
all-mem p a (c ∷ cs) (Memᴰ.head q) h = ap p q ∙ ground arith
all-mem p a (c ∷ cs) (Memᴰ.tail m) h = all-mem p a cs m (ground arith)

module _ (env : Env) (backends : List String) where
  -- The index of one of the backends.
  abbrev IsNew : String → Type 0
  IsNew i = (a : String) × (Memᴰ a backends × (i ≡ env.new_index a))

  record AllNew (s : Cluster) : Type 0 where
    news : All IsNew s.indexes_pending

  promote_new : (m : AliasMapping) (s : Cluster) → AllNew s → AllNew (promote m s)
  unfolding promote
  promote_new m s k = record {
    news =
        All-of_mem IsNew _
          (λ i r. All-mem IsNew s.indexes_pending k.news (mem-keep _ s.indexes_pending r).0);
  }

  either_new : (b : Bool) (s t : Cluster) → AllNew s → AllNew t → AllNew (if b then s else t)
  either_new true s t h k = h
  either_new false s t h k = k

  check_indexes_new :
      (n : ℕ) (ms : List AliasMapping) (s : Cluster) → AllNew s → AllNew (check_indexes env n ms s)
  unfolding check_indexes check_index
  check_indexes_new n [] s k = k
  check_indexes_new n (m ∷ ms) s k =
      check_indexes_new n ms _
        (either_new _ _ _ (either_new _ _ _ (promote_new m s k) k) (promote_new m s k))

  run_attempts_new :
      (left attempts : ℕ) (ms : List AliasMapping) (s : Cluster)
      → AllNew s
      → AllNew (run_attempts left attempts env ms s)
  unfolding run_attempts
  run_attempts_new zero attempts ms s k = k
  run_attempts_new (suc left) attempts ms s k =
      either_new _ _ _ k
        (run_attempts_new left (suc attempts) ms _ (check_indexes_new (suc attempts) ms s k))

  IsNew-indexes :
      (cs : List String)
      → ((a : String) → Memᴰ a cs → Memᴰ a backends)
      → All IsNew (map (λ m. m.index) (map (prepare_backend_index env) cs))
  IsNew-indexes [] h = tt
  IsNew-indexes (c ∷ cs) h =
      ((c, (h c (Memᴰ.head refl), refl)), IsNew-indexes cs (λ a m. h a (Memᴰ.tail m)))

  -- Nothing is pending exactly when every new index was accepted.
  is_empty_lem :
      (accepted : String → Bool) (pending : List String)
      → All IsNew pending
      → ((a : String) → Memᴰ a backends → contains (env.new_index a) pending ≡ not (accepted a))
      → is_empty pending ≡ all accepted backends
  is_empty_lem accepted [] k h = sym (all_of_mem accepted backends (λ a m. ground (arith, h a m)))
  is_empty_lem accepted (i ∷ rest) k h =
      let (a, (m, q)) = k.0 in
      elim (Bool-cases (all accepted backends)) [
        | inl e ↦ absurd (
            ground (
              arith,
              h a m,
              all-mem accepted a backends m e,
              (string_eq.equals_iff i (env.new_index a)).1 q,
            ))
        | inr e ↦ sym e
      ]

-- Where the name of a new index tells its alias, the command ends without an error exactly when the
-- check is disabled or the new index of every backend was sane in one of the two attempts.
pub handle_done_iff :
    (env : Env) (backends : List String) (before : List Alias)
    → ((x y : String) → env.new_index x ≡ env.new_index y → x ≡ y)
    → is_done (handle env backends before)
      ≡ all (λ a. is_accepted env 1 a || is_accepted env 2 a) backends
unfolding handle accepted_in
handle_done_iff env backends before injective =
    let start : Cluster = record {
      aliases = before;
      indexes_pending = map (λ m. m.index) (map (prepare_backend_index env) backends);
    } in
    let end : Cluster = run_attempts 2 0 env (map (prepare_backend_index env) backends) start in
    let fresh =
      run_attempts_new env backends 2 0 (map (prepare_backend_index env) backends) start
        (record { news = IsNew-indexes env backends backends (λ _ m. m) }) in
    is_done-outcome_of end
    ∙ is_empty_lem env backends (λ a. is_accepted env 1 a || is_accepted env 2 a)
        end.indexes_pending fresh.news
        (λ a m.
          let at =
            run_attempts_lem env before injective 2 0 false a backends start m
              (record { pending = contains-mem env a backends m; points_to = refl }) in
          at.pending ∙ ground arith)
