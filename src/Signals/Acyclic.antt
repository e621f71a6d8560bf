-- ===== src/Signals/Acyclic.antt =====
-- A membership that passes check_curriculum_program_membership_for_cycles
-- (course_discovery/apps/course_metadata/signals.py) makes no cycle.
use mathlib.Core.List.{Memᴰ}
use course_discovery_ed_uhk.Base.{
  ℕ, ◌≡◌, ◌⊎◌, inl, inr, refl, sym, ap, ◌∙◌, subst, false, none, some, List, [], ◌∷◌, map, arith,
  nat_beq, nat_beq_iff, if◌then◌else◌, Bool-cases,
}
use course_discovery_ed_uhk.Signals.{
  Curriculum, mem, find_in_programs, saved, check_curriculum_program_membership_for_cycles,
}
use course_discovery_ed_uhk.Signals.Reach.{Edge, Reach, here, through, Owns, Hit}
use course_discovery_ed_uhk.Signals.Search.{find_in_programs_iff}

abbrev pub hold : ℕ → ℕ → Curriculum → Curriculum
hold id program c =
    if nat_beq c.id id then record c { program_curriculum = program ∷ c.program_curriculum } else c

-- The structure once the membership is saved.
unfoldable pub add_membership : ℕ → ℕ → List Curriculum → List Curriculum
add_membership id program table = map (hold id program) table

abbrev pub HasCycle : List Curriculum → Type 0
HasCycle table = (p : ℕ) × ((q : ℕ) × (Edge table p q × Reach table q p))

Reach-trans :
    (table : List Curriculum) {p q r : ℕ} → Reach table p q → Reach table q r → Reach table p r
Reach-trans table here b = b
Reach-trans table (through e a) b = through e (Reach-trans table a b)

mem-map :
    (id program : ℕ) (c : Curriculum) (table : List Curriculum)
    → Memᴰ c (map (hold id program) table)
    → (d : Curriculum) × (Memᴰ d table × (c ≡ hold id program d))
mem-map id program c [] i = elim i [ ]
mem-map id program c (d ∷ table) (Memᴰ.head e) = (d, (Memᴰ.head refl, e))
mem-map id program c (d ∷ table) (Memᴰ.tail i) =
    let (d', (j, e)) = mem-map id program c table i in (d', (Memᴰ.tail j, e))

-- An edge of the new structure is an old one, or leads from an owner of the curriculum to the program.
Edge-cases :
    (id program : ℕ) (table : List Curriculum) {p q : ℕ}
    → Edge (add_membership id program table) p q
    → Edge table p q ⊎ (Owns table p id × (q ≡ program))
unfolding add_membership
Edge-cases id program table {p} {q} e =
    let (d, (j, s)) = mem-map id program e.curriculum table e.listed in
    let owner = ap (λ c. c.program) (sym s) ∙ e.owner in
    let holds = ap (λ c. mem q c.program_curriculum) (sym s) ∙ e.holds in
    elim (Bool-cases (nat_beq d.id id)) [
      | inr f ↦
          inl (record { curriculum = d; listed = j; owner = rw f at owner; holds = rw f at holds })
      | inl f ↦ elim (Bool-cases (nat_beq q program)) [
        | inl g ↦ inr (
          record {
            curriculum = d;
            listed = j;
            owner = rw f at owner;
            is_it = (nat_beq_iff d.id id).0 f;
          },
          (nat_beq_iff q program).0 g,
        )
        | inr g ↦ inl (record {
          curriculum = d;
          listed = j;
          owner = rw f at owner;
          holds = rw g at (rw f at holds);
        })
      ]
    ]

-- A path of the new structure is an old one, or goes to an owner of the curriculum and, last, on from the program.
Reach-cases :
    (id program : ℕ) (table : List Curriculum) {p q : ℕ}
    → Reach (add_membership id program table) p q
    → Reach table p q ⊎ ((o : ℕ) × (Owns table o id × (Reach table p o × Reach table program q)))
Reach-cases id program table here = inl here
Reach-cases id program table {p} {q} (through e a) = elim (Edge-cases id program table e) [
  | inl e' ↦ elim (Reach-cases id program table a) [
    | inl a' ↦ inl (through e' a')
    | inr (o, (w, (a', b))) ↦ inr (o, (w, (through e' a', b)))
  ]
  | inr (w, k) ↦ elim (Reach-cases id program table a) [
    | inl a' ↦ inr (p, (w, (here, subst (λ x. Reach table x q) k a')))
    | inr (_, (_, (_, b))) ↦ inr (p, (w, (here, b)))
  ]
]

-- Any cycle leads from the program to an owner of the curriculum, or was there before.
HasCycle-cases :
    (id program : ℕ) (table : List Curriculum)
    → HasCycle (add_membership id program table)
    → HasCycle table ⊎ ((o : ℕ) × (Owns table o id × Reach table program o))
HasCycle-cases id program table (p, (q, (e, a))) = elim (Edge-cases id program table e) [
  | inl e' ↦ elim (Reach-cases id program table a) [
    | inl a' ↦ inl (p, (q, (e', a')))
    | inr (o, (w, (a', b))) ↦ inr (o, (w, Reach-trans table b (through e' a')))
  ]
  | inr (w, k) ↦ elim (Reach-cases id program table a) [
    | inl a' ↦ inr (p, (w, subst (λ x. Reach table x p) k a'))
    | inr (_, (_, (_, b))) ↦ inr (p, (w, b))
  ]
]

find_saved :
    (fuel : ℕ) (table : List Curriculum) (id program : ℕ)
    → check_curriculum_program_membership_for_cycles fuel table id program ≡ saved
    → find_in_programs fuel table (some id) none (program ∷ []) ≡ some false
unfolding check_curriculum_program_membership_for_cycles
find_saved fuel table id program h = ground arith

-- A membership that passes the check makes no cycle in a structure that had none.
pub membership_saved-HasCycle :
    (fuel : ℕ) (table : List Curriculum) (id program : ℕ)
    → ¬ HasCycle table
    → check_curriculum_program_membership_for_cycles fuel table id program ≡ saved
    → ¬ HasCycle (add_membership id program table)
membership_saved-HasCycle fuel table id program acyclic h cycle =
    elim (HasCycle-cases id program table cycle) [
      | inl old ↦ acyclic old
      | inr (o, (w, a)) ↦
          let hit : Hit table (some id) none (program ∷ []) = record {
            from = program;
            found = o;
            starts = rw ((nat_beq_iff program program).1 refl) refl;
            reached = a;
            is_target = inr (id, (refl, w));
          } in
          cc (
            (find_in_programs_iff fuel table (some id) none (program ∷ []) false
                (find_saved fuel table id program h)).1
              hit)
    ]
