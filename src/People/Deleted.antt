-- ===== src/People/Deleted.antt =====
-- What delete_person leaves
-- (course_discovery/apps/course_metadata/management/commands/delete_person_dups.py).
use course_discovery_ed_uhk.Base.{
  ℕ, ◌+◌, ◌≡◌, Bool, true, false, not, List, [], ◌∷◌, map, nat_beq, keep, all, length, ◌≢◌,
}
use course_discovery_ed_uhk.People.{site_api_client, person_to_marketing, Call, returned, raised}
use course_discovery_ed_uhk.People.Duplicates.{
  Endorsement, Ordering, Database, merge_endorsement, is_person,
}
use course_discovery_ed_uhk.People.Merged.{IsMerged, is_distinct}

-- Row by row, the list of each ordering is merged.
pub data Merges (person target : ℕ) : List Ordering → List Ordering → Type 0 where
  no_rows : Merges person target [] []
  a_row :
      {o o' : Ordering} {os os' : List Ordering}
      → (o'.id ≡ o.id)
      → IsMerged person target o.people o'.people
      → Merges person target os os'
      → Merges person target (o ∷ os) (o' ∷ os')

abbrev pub all_distinct : List Ordering → Bool
all_distinct orderings = all (λ o. is_distinct o.people) orderings

-- The endorsements of a person.
abbrev pub endorsed_by : ℕ → List Endorsement → List Endorsement
endorsed_by person es = keep (λ e. nat_beq e.endorser person) es

pub record IsDeleted (person target : ℕ) (old new : Database) : Type 0 where
  pub gone : is_person new person ≡ false
  pub kept : (key : ℕ) → key ≢ person → is_person new key ≡ is_person old key
  pub endorsements :
      length (endorsed_by target new.endorsements)
      ≡ length (endorsed_by target old.endorsements) + length (endorsed_by person old.endorsements)
  pub same_endorsements : map (λ e. e.id) new.endorsements ≡ map (λ e. e.id) old.endorsements
  pub programs : Merges person target old.programs new.programs
  pub course_runs : Merges person target old.course_runs new.course_runs

module _ (person target : ℕ) (apart : nat_beq person target ≡ false) where
  merged_endorsements : List Endorsement → List Endorsement
  merged_endorsements es =
      keep (λ e. not (nat_beq e.endorser person)) (map (merge_endorsement person target) es)

-- Whether the marketing site fails to answer to the look-up of a node.
abbrev pub is_refused : Call Bool → Bool
is_refused (returned found sent) = false
is_refused (raised site_api_client sent) = false
is_refused (raised person_to_marketing sent) = true
