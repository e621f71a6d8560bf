-- ===== src/Signals.antt =====
-- The receivers that guard curricula (course_discovery/apps/course_metadata/signals.py): the search
-- for circular references. Programs and curricula are known by their keys.
pub mod Reach
pub mod Search
pub mod Acyclic
pub mod ExternalKeys
use course_discovery_ed_uhk.Base.{
  ℕ, zero, suc, Bool, true, false, ◌&&◌, ◌||◌, not, Option, none, some, List, [], ◌∷◌, ◌++◌,
  nat_beq, if◌then◌else◌, keep, any, is_empty, present_and,
}

-- `program_curriculum` are the programs that the curriculum's memberships hold.
pub record Curriculum : Type 0 where
  pub id : ℕ
  pub program : Option ℕ
  pub program_curriculum : List ℕ

abbrev pub mem : ℕ → List ℕ → Bool
mem key keys = any (nat_beq key) keys

-- A target, or None.
abbrev pub is_in : Option ℕ → List ℕ → Bool
is_in target keys = present_and (λ t. mem t keys) target

-- `Curriculum.objects.filter(program__in=existing_programs)`
abbrev pub belongs_to : List ℕ → Curriculum → Bool
belongs_to programs curriculum = present_and (λ p. mem p programs) curriculum.program

abbrev pub curriculum_ids : List Curriculum → List ℕ
curriculum_ids [] = []
curriculum_ids (c ∷ cs) = c.id ∷ curriculum_ids cs

abbrev pub members : List Curriculum → List ℕ
members [] = []
members (c ∷ cs) = c.program_curriculum ++ members cs

-- The recursion has no bound in the code; `none` is that the fuel ran out. At least one target is
-- given by each caller.
unfoldable pub find_in_programs : ℕ → List Curriculum → Option ℕ → Option ℕ → List ℕ → Option Bool
find_in_programs zero table target_curriculum target_program existing_programs = none
find_in_programs (suc fuel) table target_curriculum target_program existing_programs =
    let curricula = keep (belongs_to existing_programs) table in
    let rest = find_in_programs fuel table target_curriculum target_program (members curricula) in
    if is_empty existing_programs
    then some false
    else if is_in target_program existing_programs
    then some true
    else if is_in target_curriculum (curriculum_ids curricula)
    then some true
    else rest

-- What a receiver does: the save goes on, is refused, or the search does not end.
pub data Check : Type 0 where
  saved validation_error diverges : Check

abbrev pub verdict : Option Bool → Check
verdict none = diverges
verdict (some true) = validation_error
verdict (some false) = saved

-- A curriculum that is not saved yet has no key.
unfoldable pub check_curriculum_for_cycles :
    ℕ → List Curriculum → (id : Option ℕ) → Curriculum → Check
unfolding find_in_programs
check_curriculum_for_cycles fuel table none curriculum = saved
check_curriculum_for_cycles fuel table (some id) curriculum = elim curriculum.program [
  | none ↦ saved
  | some program ↦
      verdict (find_in_programs fuel table none (some program) curriculum.program_curriculum)
]

unfoldable pub check_curriculum_program_membership_for_cycles :
    ℕ → List Curriculum → (curriculum program : ℕ) → Check
unfolding find_in_programs
check_curriculum_program_membership_for_cycles fuel table curriculum program =
    verdict (find_in_programs fuel table (some curriculum) none (program ∷ []))
