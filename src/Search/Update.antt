-- ===== src/Search/Update.antt =====
-- update_index (course_discovery/apps/edx_haystack_extensions/management/commands/update_index.py). How many
-- records an index has after an attempt, and the name of a new index, are parameters, which do not
-- change while the aliases are set. Attempt 0 is the time before the command. What is logged is left out.
use course_discovery_ed_uhk.Base.{
  ℕ, zero, suc, ◌+◌, ◌-◌, ◌*◌, String, Bool, not, ◌&&◌, List, [], ◌∷◌, map, ◌==◌, nat_beq, ltb, any,
  keep, is_empty, if◌then◌else◌, string_eq,
}

-- A quotient; no denominator is 0.
pub record Ratio : Type 0 where
  pub numerator : ℕ
  pub denominator : ℕ

abbrev pub is_less : Ratio → Ratio → Bool
is_less a b = ltb (a.numerator * b.denominator) (b.numerator * a.denominator)

-- A division by 0 counts as a change of 100%.
unfoldable pub percentage_change : (current previous : ℕ) → Ratio
percentage_change current previous =
    if nat_beq previous 0
    then record { numerator = 1; denominator = 1 }
    else record { numerator = (current - previous) + (previous - current); denominator = previous }

pub record Alias : Type 0 where
  pub name : String
  pub index : String

pub record Cluster : Type 0 where
  pub aliases : List Alias
  pub indexes_pending : List String

-- `INDEX_SIZE_CHANGE_THRESHOLD`, the option that disables the check, and Elasticsearch.
pub record Env : Type 0 where
  pub threshold : Ratio
  pub disable_change_limit : Bool
  pub count : ℕ → String → ℕ
  pub new_index : String → String

pub record AliasMapping : Type 0 where
  pub index : String
  pub alias : String
  pub record_count : ℕ

unfoldable pub sanity_check_new_index :
    Env → ℕ → (index : String) → (previous_record_count : ℕ) → Bool
unfolding percentage_change
sanity_check_new_index env attempt index previous_record_count =
    is_less (percentage_change (env.count attempt index) previous_record_count) env.threshold

-- The indexes that an alias refers to.
abbrev pub targets : String → List Alias → List String
targets name aliases = map (λ a. a.index) (keep (λ a. a.name == name) aliases)

unfoldable pub set_alias : (alias index : String) → List Alias → List Alias
set_alias alias index aliases =
    record { name = alias; index = index } ∷ keep (λ a. not (a.name == alias)) aliases

abbrev pub contains : String → List String → Bool
contains x xs = any (λ y. y == x) xs

-- The alias is set, and the index is no longer pending.
unfoldable pub promote : AliasMapping → Cluster → Cluster
unfolding set_alias
promote mapping s = record {
  aliases = set_alias mapping.alias mapping.index s.aliases;
  indexes_pending = keep (λ i. not (i == mapping.index)) s.indexes_pending;
}

unfoldable pub check_index : Env → ℕ → AliasMapping → Cluster → Cluster
unfolding promote sanity_check_new_index
check_index env attempt mapping s =
    if contains mapping.index s.indexes_pending && not env.disable_change_limit
    then (if sanity_check_new_index env attempt mapping.index mapping.record_count
        then promote mapping s
        else s)
    else promote mapping s

unfoldable pub check_indexes : Env → ℕ → List AliasMapping → Cluster → Cluster
unfolding check_index
check_indexes env attempt [] s = s
check_indexes env attempt (m ∷ ms) s = check_indexes env attempt ms (check_index env attempt m s)

-- The loop over the attempts, with those that are left and those that were made.
unfoldable pub run_attempts : ℕ → ℕ → Env → List AliasMapping → Cluster → Cluster
unfolding check_indexes
run_attempts zero attempts env mappings s = s
run_attempts (suc left) attempts env mappings s =
    let rest =
      run_attempts left (suc attempts) env mappings (check_indexes env (suc attempts) mappings s) in
    if is_empty s.indexes_pending then s else rest

-- What is known of a backend, whose name for its index is the alias.
abbrev pub prepare_backend_index : Env → String → AliasMapping
prepare_backend_index env alias = record {
  index = env.new_index alias;
  alias = alias;
  record_count = env.count 0 alias;
}

pub data Outcome : Type 0 where
  done : List Alias → Outcome
  command_error : List Alias → Outcome

abbrev pub aliases_of : Outcome → List Alias
aliases_of (done aliases) = aliases
aliases_of (command_error aliases) = aliases

abbrev pub outcome_of : Cluster → Outcome
outcome_of s = if is_empty s.indexes_pending then done s.aliases else command_error s.aliases

-- The command on the backends, named by their aliases.
unfoldable pub handle : Env → (backends : List String) → List Alias → Outcome
unfolding run_attempts
handle env backends aliases =
    let mappings = map (prepare_backend_index env) backends in
    outcome_of (
      run_attempts 2 0 env mappings
        (record { aliases = aliases; indexes_pending = map (λ m. m.index) mappings }))
