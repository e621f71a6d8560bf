-- ===== src/Signals/Search.antt =====
-- The search of _find_in_programs (course_discovery/apps/course_metadata/signals.py): what it finds,
-- and that it ends where the structure has no cycle.
use course_discovery_ed_uhk.Base.{
  ℕ, zero, suc, ◌≤◌, ◌<◌, ◌≡◌, ◌↔◌, ◌⊎◌, inl, inr, refl, sym, ap, ◌∙◌, Bool, true, false, Option,
  none, some, List, [], ◌∷◌, ◌++◌, arith, nat_beq, nat_beq_iff, keep, is_empty, Bool-cases,
  Option-cases, mem-keep, keep-mem, All, is_some, subst,
}
use course_discovery_ed_uhk.Signals.{
  Curriculum, mem, is_in, belongs_to, curriculum_ids, members, find_in_programs,
}
use course_discovery_ed_uhk.Signals.Reach.{
  Reach, here, through, IsTarget, Hit, members-mem, mem-members, ids-mem, mem-ids,
}

-- The order of the tests, as what a search that ends says.
search_cases :
    (fuel : ℕ) (table : List Curriculum) (tc tp : Option ℕ) (ps : List ℕ) (b : Bool)
    → find_in_programs (suc fuel) table tc tp ps ≡ some b
    → ((is_empty ps ≡ true) × (b ≡ false))
      ⊎ ((is_in tp ps ≡ true) × (b ≡ true))
      ⊎ ((is_in tc (curriculum_ids (keep (belongs_to ps) table)) ≡ true) × (b ≡ true))
      ⊎ ((is_in tp ps ≡ false)
          × ((is_in tc (curriculum_ids (keep (belongs_to ps) table)) ≡ false)
              × (find_in_programs fuel table tc tp (members (keep (belongs_to ps) table))
                  ≡ some b)))
unfolding find_in_programs
search_cases fuel table tc tp ps b h = ground arith

-- A curriculum of one of the programs.
owner_of :
    (ps : List ℕ) (c : Curriculum)
    → belongs_to ps c ≡ true
    → (p : ℕ) × ((c.program ≡ some p) × (mem p ps ≡ true))
owner_of ps c h = elim (Option-cases c.program) [
  | inl e ↦ ground (arith, e)
  | inr (p, e) ↦ (p, (e, ground (arith, e)))
]

is_in-some :
    (t : Option ℕ) (ks : List ℕ) → is_in t ks ≡ true → (x : ℕ) × ((t ≡ some x) × (mem x ks ≡ true))
is_in-some none ks h = ground arith
is_in-some (some x) ks h = (x, (refl, h))

find_true :
    (fuel : ℕ) (table : List Curriculum) (tc tp : Option ℕ) (ps : List ℕ)
    → find_in_programs fuel table tc tp ps ≡ some true
    → Hit table tc tp ps
find_true zero table tc tp ps h = unfold find_in_programs in ground arith
find_true (suc fuel) table tc tp ps h = elim (search_cases fuel table tc tp ps true h) [
  | inl (_, e) ↦ cc e
  | inr (inl (e, _)) ↦
      let (x, (q, m)) = is_in-some tp ps e in
      record { from = x; found = x; starts = m; reached = here; is_target = inl q }
  | inr (inr (inl (e, _))) ↦
      let (x, (q, m)) = is_in-some tc _ e in
      let (c, (i, k)) = ids-mem x _ m in
      let (j, b) = mem-keep (belongs_to ps) table i in
      let (p, (o, s)) = owner_of ps c b in
      record {
        from = p;
        found = p;
        starts = s;
        reached = here;
        is_target = inr (x, (q, record { curriculum = c; listed = j; owner = o; is_it = k }));
      }
  | inr (inr (inr (_, (_, e)))) ↦
      let r = find_true fuel table tc tp _ e in
      let (c, (i, k)) = members-mem r.from _ r.starts in
      let (j, b) = mem-keep (belongs_to ps) table i in
      let (p, (o, s)) = owner_of ps c b in
      record {
        from = p;
        found = r.found;
        starts = s;
        reached = through (record { curriculum = c; listed = j; owner = o; holds = k }) r.reached;
        is_target = r.is_target;
      }
]

belongs-owner :
    (ps : List ℕ) (c : Curriculum) (p : ℕ)
    → c.program ≡ some p
    → mem p ps ≡ true
    → belongs_to ps c ≡ true
belongs-owner ps c p e m = rw e m

target_seen :
    (table : List Curriculum) (tc tp : Option ℕ) (ps : List ℕ) (p : ℕ)
    → mem p ps ≡ true
    → IsTarget table tc tp p
    → (is_in tp ps ≡ true) ⊎ (is_in tc (curriculum_ids (keep (belongs_to ps) table)) ≡ true)
target_seen table tc tp ps p m (inl e) = inl (rw e m)
target_seen table tc tp ps p m (inr (id, (e, o))) = inr (
    rw e (
      mem-ids id o.curriculum _
        (keep-mem (belongs_to ps) table o.listed (belongs-owner ps o.curriculum p o.owner m))
        o.is_it))

mem_not_empty : (p : ℕ) (ps : List ℕ) → mem p ps ≡ true → is_empty ps ≡ false
mem_not_empty p [] m = ground arith
mem_not_empty p (_ ∷ _) m = refl

find_reached :
    (fuel : ℕ) (table : List Curriculum) (tc tp : Option ℕ) (ps : List ℕ) (b : Bool)
    → find_in_programs fuel table tc tp ps ≡ some b
    → {p r : ℕ} → mem p ps ≡ true
    → Reach table p r
    → IsTarget table tc tp r
    → b ≡ true
find_reached zero table tc tp ps b h m path t = unfold find_in_programs in ground arith
find_reached (suc fuel) table tc tp ps b h {p} m here t =
    let seen = target_seen table tc tp ps p m t in
    elim (search_cases fuel table tc tp ps b h) [
      | inl (e, _) ↦ cc (e, mem_not_empty p ps m)
      | inr (inl (_, e)) ↦ e
      | inr (inr (inl (_, e))) ↦ e
      | inr (inr (inr (e, (f, _)))) ↦ elim seen [ inl g ↦ cc (e, g) | inr g ↦ cc (f, g) ]
    ]
find_reached (suc fuel) table tc tp ps b h {p} m (through {q} edge path) t =
    elim (search_cases fuel table tc tp ps b h) [
      | inl (e, _) ↦ cc (e, mem_not_empty p ps m)
      | inr (inl (_, e)) ↦ e
      | inr (inr (inl (_, e))) ↦ e
      | inr (inr (inr (_, (_, e)))) ↦
          find_reached fuel table tc tp _ b e
            (mem-members q edge.curriculum _
              (keep-mem (belongs_to ps) table edge.listed
                (belongs-owner ps edge.curriculum p edge.owner m))
              edge.holds)
            path t
    ]

-- A search that ends says whether a target can be reached from the programs.
pub find_in_programs_iff :
    (fuel : ℕ) (table : List Curriculum) (target_curriculum target_program : Option ℕ)
    (programs : List ℕ) (found : Bool)
    → find_in_programs fuel table target_curriculum target_program programs ≡ some found
    → (found ≡ true) ↔ Hit table target_curriculum target_program programs
find_in_programs_iff fuel table tc tp ps found h = (
  λ e. find_true fuel table tc tp ps (h ∙ ap some e),
  λ hit. find_reached fuel table tc tp ps found h hit.starts hit.reached hit.is_target,
)

-- Ranks that fall along every edge, which a structure without a cycle has.
abbrev pub IsRank : List Curriculum → (ℕ → ℕ) → Type 0
IsRank table rank =
    All (λ c. (p : ℕ) → c.program ≡ some p → All (λ q. rank q < rank p) c.program_curriculum) table

All-mem_key : (P : ℕ → Type 0) (q : ℕ) (keys : List ℕ) → All P keys → mem q keys ≡ true → P q
All-mem_key P q [] a m = ground arith
All-mem_key P q (k ∷ keys) a m = elim (Bool-cases (nat_beq q k)) [
  | inl e ↦ subst P (sym ((nat_beq_iff q k).0 e)) a.0
  | inr e ↦ All-mem_key P q keys a.1 (ground arith)
]

All-append : (P : ℕ → Type 0) (xs ys : List ℕ) → All P xs → All P ys → All P (xs ++ ys)
All-append P [] ys a b = b
All-append P (x ∷ xs) ys a b = (a.0, All-append P xs ys a.1 b)

All-below :
    (rank : ℕ → ℕ) (a b : ℕ) (qs : List ℕ)
    → a ≤ b
    → All (λ q. rank q < a) qs
    → All (λ q. rank q < b) qs
All-below rank a b [] l h = tt
All-below rank a b (q ∷ qs) l h = (omega arith, All-below rank a b qs l h.1)

-- The members of the curricula of programs of a rank up to `n` have a lower one.
members-ranks :
    (n : ℕ) (rank : ℕ → ℕ) (ps : List ℕ) (table : List Curriculum)
    → IsRank table rank
    → All (λ p. rank p < suc n) ps
    → All (λ q. rank q < n) (members (keep (belongs_to ps) table))
members-ranks n rank ps [] r a = tt
members-ranks n rank ps (c ∷ table) r a = elim (Bool-cases (belongs_to ps c)) [
  | inr e ↦ rw e (members-ranks n rank ps table r.1 a)
  | inl e ↦
      let (p, (o, m)) = owner_of ps c e in
      let low = All-mem_key (λ p. rank p < suc n) p ps a m in
      rw e (
        All-append (λ q. rank q < n) c.program_curriculum _
          (All-below rank (rank p) n c.program_curriculum (omega arith) (r.0 p o))
          (members-ranks n rank ps table r.1 a))
]

-- In a structure without a cycle the search ends: fuel above the ranks of the programs is enough.
pub find_in_programs_total :
    (n : ℕ) (rank : ℕ → ℕ) (table : List Curriculum) (target_curriculum target_program : Option ℕ)
    (programs : List ℕ)
    → IsRank table rank
    → All (λ p. rank p < n) programs
    → is_some (find_in_programs (suc n) table target_curriculum target_program programs) ≡ true
unfolding find_in_programs
find_in_programs_total n rank table tc tp [] r a = refl
find_in_programs_total zero rank table tc tp (p ∷ ps) r a = absurd (omega arith)
find_in_programs_total (suc n) rank table tc tp (p ∷ ps) r a =
    let rest =
      find_in_programs_total n rank table tc tp _ r (members-ranks n rank (p ∷ ps) table r a) in
    ground (arith, rest)
