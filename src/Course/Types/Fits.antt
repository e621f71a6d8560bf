-- ===== src/Course/Types/Fits.antt =====
-- What the tests of calculate_course_type ask for, in terms of the rows
-- (course_discovery/apps/course_metadata/data_loaders/course_type.py).
use mathlib.Core.List.{Memᴰ}
use course_discovery_ed_uhk.Base.{
  ℕ, String, ◌≡◌, ◌⊎◌, ◌↔◌, refl, sym, ap, subst, ◌∙◌, Bool, true, ◌&&◌, ◌||◌, Option, none, some,
  List, [], ◌∷◌, ◌==◌, string_eq, eq_iff, nat_beq, nat_beq_iff, arith, all, any, is_empty, keep,
  mem-keep, Bool-cases, inl, inr,
}
use course_discovery_ed_uhk.Course.Types.{
  Types, TypedRun, TypedCourse, mem, same_modes, is_slug, is_seat, is_matching_run_type,
  do_entitlements_match, allowed, allowed_run_types,
}

module _ {A : Type 0} (p : A → Bool) where
  all-mem : {a : A} (xs : List A) → all p xs ≡ true → Memᴰ a xs → p a ≡ true
  all-mem [] h m = elim m [ ]
  all-mem (x ∷ xs) h (Memᴰ.head q) = ap p q ∙ ground arith
  all-mem (x ∷ xs) h (Memᴰ.tail m) = all-mem xs (ground arith) m

  any-mem : (xs : List A) → any p xs ≡ true → (a : A) × (Memᴰ a xs × (p a ≡ true))
  any-mem [] h = cc h
  any-mem (x ∷ xs) h = elim (Bool-cases (p x)) [
    | inl e ↦ (x, (Memᴰ.head refl, e))
    | inr e ↦ let (a, (m, t)) = any-mem xs (rw e at h) in (a, (Memᴰ.tail m, t))
  ]

pub mem_Mem : (key : ℕ) (keys : List ℕ) → mem key keys ≡ true → Memᴰ key keys
mem_Mem key keys h =
    let (k, (m, e)) = any-mem (nat_beq key) keys h in
    subst (λ x. Memᴰ x keys) (sym ((nat_beq_iff key k).0 e)) m

-- A course without entitlements fits any type; another one has those of the type, whatever their order.
abbrev pub HasModes : Types → ℕ → TypedCourse → Type 0
HasModes types t course =
    (course.entitlements ≡ [])
    ⊎ ((mode : ℕ) → Memᴰ mode course.entitlements ↔ Memᴰ mode (types.entitlement_types t))

-- A type that is not empty is kept.
abbrev pub KeepsType : Types → ℕ → TypedCourse → Type 0
KeepsType types t course = (types.is_empty_course_type course.type ≡ true) ⊎ (course.type ≡ t)

-- The seats of the run are of the types that the run type has a track for, and every track of the run
-- type has a seat type, of which the run has a seat.
pub record HasTracks (types : Types) (run : TypedRun) (run_type : ℕ) : Type 0 where
  pub tracked : (slug : String) → Memᴰ slug run.seats → Memᴰ (some slug) (types.seat_types run_type)
  pub seated :
      (o : Option String)
      → Memᴰ o (types.seat_types run_type)
      → (slug : String) × ((o ≡ some slug) × Memᴰ slug run.seats)

-- A run type of the course type, or one whose slug is listed for the slug of the course type.
abbrev pub IsAllowed : Types → List (String × List String) → ℕ → ℕ → Type 0
IsAllowed types mismatches t run_type =
    Memᴰ run_type (types.course_run_types t)
    ⊎ (Memᴰ run_type types.all_run_types
        × ((slugs : List String) × (Memᴰ (types.course_type_slug t, slugs) mismatches
              × Memᴰ (types.run_type_slug run_type) slugs)))

is_slug_eq : (slug : String) (o : Option String) → is_slug slug o ≡ true → o ≡ some slug
is_slug_eq slug none h = cc h
is_slug_eq slug (some s) h = ap some ((eq_iff s slug).0 h)

is_seat_mem :
    (seats : List String) (o : Option String)
    → is_seat seats o ≡ true
    → (slug : String) × ((o ≡ some slug) × Memᴰ slug seats)
is_seat_mem seats none h = cc h
is_seat_mem seats (some slug) h =
    let (s, (m, e)) = any-mem (λ s. s == slug) seats h in
    (slug, (refl, subst (λ x. Memᴰ x seats) ((eq_iff s slug).0 e) m))

both : (a b : Bool) → (a && b) ≡ true → (a ≡ true) × (b ≡ true)
both a b h = (ground arith, ground arith)

pub is_matching_run_type-HasTracks :
    (types : Types) (run : TypedRun) (run_type : ℕ)
    → is_matching_run_type types run run_type ≡ true
    → HasTracks types run run_type
unfolding is_matching_run_type
is_matching_run_type-HasTracks types run run_type h =
    let (tracks, seats) = both _ _ h in
    record {
      tracked = λ slug m.
          let (o, (there, e)) =
            any-mem (is_slug slug) (types.seat_types run_type)
              (all-mem (λ s. any (is_slug s) (types.seat_types run_type)) run.seats tracks m) in
          subst (λ x. Memᴰ x (types.seat_types run_type)) (is_slug_eq slug o e) there;
      seated = λ o m.
          is_seat_mem run.seats o (all-mem (is_seat run.seats) (types.seat_types run_type) seats m);
    }

same_modes_iff :
    (xs ys : List ℕ) → same_modes xs ys ≡ true → (mode : ℕ) → Memᴰ mode xs ↔ Memᴰ mode ys
same_modes_iff xs ys h mode =
    let (there, back) = both (all (λ x. mem x ys) xs) (all (λ y. mem y xs) ys) h in
    (
      λ m. mem_Mem mode ys (all-mem (λ x. mem x ys) xs there m),
      λ m. mem_Mem mode xs (all-mem (λ y. mem y xs) ys back m),
    )

is_empty_eq : (xs : List ℕ) → is_empty xs ≡ true → xs ≡ []
is_empty_eq [] h = refl
is_empty_eq (_ ∷ _) h = cc h

pub do_entitlements_match-HasModes :
    (types : Types) (course : TypedCourse) (t : ℕ)
    → do_entitlements_match types course t ≡ true
    → HasModes types t course × KeepsType types t course
unfolding do_entitlements_match
do_entitlements_match-HasModes types course t h = (
  elim (Bool-cases (is_empty course.entitlements)) [
    | inl e ↦ inl (is_empty_eq course.entitlements e)
    | inr e ↦ inr (same_modes_iff course.entitlements (types.entitlement_types t) (ground arith))
  ],
  elim (Bool-cases (types.is_empty_course_type course.type)) [
    | inl e ↦ inl e
    | inr e ↦ inr ((nat_beq_iff course.type t).0 (ground arith))
  ],
)

-- What is listed for a slug, if anything is.
allowed_mem :
    (mismatches : List (String × List String)) (slug s : String)
    → Memᴰ s (allowed mismatches slug)
    → (slugs : List String) × (Memᴰ (slug, slugs) mismatches × Memᴰ s slugs)
allowed_mem [] slug s m = elim m [ ]
allowed_mem ((key, slugs) ∷ mismatches) slug s m = elim (Bool-cases (key == slug)) [
  | inl e ↦ (slugs, (Memᴰ.head (ap (λ k. (k, slugs)) (sym ((eq_iff key slug).0 e))), rw e at m))
  | inr e ↦
      let (found, (there, listed)) = allowed_mem mismatches slug s (rw e at m) in
      (found, (Memᴰ.tail there, listed))
]

pub allowed_run_types-IsAllowed :
    (types : Types) (mismatches : List (String × List String)) (t run_type : ℕ)
    → mem run_type (allowed_run_types types mismatches t) ≡ true
    → IsAllowed types mismatches t run_type
unfolding allowed_run_types
allowed_run_types-IsAllowed types mismatches t run_type h =
    let slugs = allowed mismatches (types.course_type_slug t) in
    let own = types.course_run_types t in
    let test : ℕ → Bool = λ r. mem r own || any (λ s. s == types.run_type_slug r) slugs in
    elim (Bool-cases (is_empty slugs)) [
      | inl e ↦ inl (mem_Mem run_type own (rw e at h))
      | inr e ↦
          let (there, passes) =
            mem-keep test types.all_run_types
              (mem_Mem run_type (keep test types.all_run_types) (rw e at h)) in
          elim (Bool-cases (mem run_type own)) [
            | inl o ↦ inl (mem_Mem run_type own o)
            | inr o ↦
                let (s, (m, q)) =
                  any-mem (λ s. s == types.run_type_slug run_type) slugs (rw o at passes) in
                inr (
                  there,
                  allowed_mem mismatches (types.course_type_slug t) (types.run_type_slug run_type)
                      (subst (λ x. Memᴰ x slugs) ((eq_iff s (types.run_type_slug run_type)).0 q) m),
                )
          ]
    ]
