-- ===== src/Signals/Reach.antt =====
-- The programs that can be reached from a program through its curricula.
use mathlib.Core.List.{Memᴰ}
use course_discovery_ed_uhk.Base.{
  ℕ, ◌≡◌, ◌⊎◌, inl, inr, refl, sym, true, ◌||◌, Option, some, List, [], ◌∷◌, ◌++◌, arith, nat_beq,
  nat_beq_iff, Bool-cases,
}
use course_discovery_ed_uhk.Signals.{Curriculum, mem, curriculum_ids, members}

-- A program holds another through one of its curricula.
pub record Edge (table : List Curriculum) (p q : ℕ) : Type 0 where
  pub curriculum : Curriculum
  pub listed : Memᴰ curriculum table
  pub owner : curriculum.program ≡ some p
  pub holds : mem q curriculum.program_curriculum ≡ true

pub data Reach (table : List Curriculum) : ℕ → ℕ → Type 0 where
  here : {p : ℕ} → Reach table p p
  through : {p q r : ℕ} → Edge table p q → Reach table q r → Reach table p r

pub record Owns (table : List Curriculum) (p id : ℕ) : Type 0 where
  pub curriculum : Curriculum
  pub listed : Memᴰ curriculum table
  pub owner : curriculum.program ≡ some p
  pub is_it : curriculum.id ≡ id

-- The program that is looked for, or one with the curriculum that is.
abbrev pub IsTarget : List Curriculum → Option ℕ → Option ℕ → ℕ → Type 0
IsTarget table target_curriculum target_program r =
    (target_program ≡ some r) ⊎ ((id : ℕ) × ((target_curriculum ≡ some id) × Owns table r id))

pub record Hit (table : List Curriculum) (target_curriculum target_program : Option ℕ)
    (programs : List ℕ) : Type 0 where
  pub from : ℕ
  pub found : ℕ
  pub starts : mem from programs ≡ true
  pub reached : Reach table from found
  pub is_target : IsTarget table target_curriculum target_program found

pub mem-append : (q : ℕ) (xs ys : List ℕ) → mem q (xs ++ ys) ≡ (mem q xs || mem q ys)
mem-append q [] ys = refl
mem-append q (x ∷ xs) ys = ground (arith, mem-append q xs ys)

pub members-mem :
    (q : ℕ) (cs : List Curriculum)
    → mem q (members cs) ≡ true
    → (c : Curriculum) × (Memᴰ c cs × (mem q c.program_curriculum ≡ true))
members-mem q [] h = ground arith
members-mem q (c ∷ cs) h = elim (Bool-cases (mem q c.program_curriculum)) [
  | inl e ↦ (c, (Memᴰ.head refl, e))
  | inr e ↦
      let (d, (i, f)) =
        members-mem q cs (ground (arith, mem-append q c.program_curriculum (members cs))) in
      (d, (Memᴰ.tail i, f))
]

pub mem-members :
    (q : ℕ) (c : Curriculum) (cs : List Curriculum)
    → Memᴰ c cs
    → mem q c.program_curriculum ≡ true
    → mem q (members cs) ≡ true
mem-members q c [] i h = elim i [ ]
mem-members q c (d ∷ cs) (Memᴰ.head e) h =
    ground (arith, mem-append q d.program_curriculum (members cs), e)
mem-members q c (d ∷ cs) (Memᴰ.tail i) h =
    ground (arith, mem-append q d.program_curriculum (members cs), mem-members q c cs i h)

pub ids-mem :
    (q : ℕ) (cs : List Curriculum)
    → mem q (curriculum_ids cs) ≡ true
    → (c : Curriculum) × (Memᴰ c cs × (c.id ≡ q))
ids-mem q [] h = ground arith
ids-mem q (c ∷ cs) h = elim (Bool-cases (nat_beq q c.id)) [
  | inl e ↦ (c, (Memᴰ.head refl, sym ((nat_beq_iff q c.id).0 e)))
  | inr e ↦ let (d, (i, f)) = ids-mem q cs (ground arith) in (d, (Memᴰ.tail i, f))
]

pub mem-ids :
    (q : ℕ) (c : Curriculum) (cs : List Curriculum)
    → Memᴰ c cs
    → c.id ≡ q
    → mem q (curriculum_ids cs) ≡ true
mem-ids q c [] i h = elim i [ ]
mem-ids q c (d ∷ cs) (Memᴰ.head e) h = ground (arith, e)
mem-ids q c (d ∷ cs) (Memᴰ.tail i) h = ground (arith, mem-ids q c cs i h)
