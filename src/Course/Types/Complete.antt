-- ===== src/Course/Types/Complete.antt =====
-- A course that fits a course type is matched by calculate_course_type
-- (course_discovery/apps/course_metadata/data_loaders/course_type.py).
use mathlib.Core.List.{Memᴰ}
use course_discovery_ed_uhk.Base.{
  ℕ, String, ◌≡◌, ◌≢◌, ◌↔◌, refl, sym, ap, subst, ◌∙◌, Bool, true, false, ◌||◌, Option, none, List,
  [], ◌∷◌, ◌==◌, string_eq, eq_iff, nat_beq, nat_beq_iff, arith, all, any, is_empty, keep, keep-mem,
  first, All, Bool-cases, Option-cases, inl, inr,
}
use course_discovery_ed_uhk.Course.Types.{
  Types, TypedRun, TypedCourse, mem, same_modes, is_slug, is_seat, is_matching_run_type,
  do_entitlements_match, allowed, allowed_run_types, match_run, match_runs, match_course_type,
}
use course_discovery_ed_uhk.Course.Types.Fits.{HasModes, KeepsType, HasTracks}
use course_discovery_ed_uhk.Course.Types.Runs.{first-keep-none}

-- There is a run type of the course type that fits the seats of the run, its own where it has one.
pub record FitsRun (types : Types) (t : ℕ) (run : TypedRun) : Type 0 where
  pub run_type : ℕ
  pub own : Memᴰ run_type (types.course_run_types t)
  pub row : Memᴰ run_type types.all_run_types
  pub tracks : HasTracks types run run_type
  pub kept : types.is_empty_run_type run.type ≡ false → run_type ≡ run.type

pub record Fits (types : Types) (t : ℕ) (course : TypedCourse) : Type 0 where
  pub modes : HasModes types t course
  pub keeps : KeepsType types t course
  pub runs : All (FitsRun types t) course.course_runs

module _ {A : Type 0} (p : A → Bool) where
  mem-all : (xs : List A) → ((a : A) → Memᴰ a xs → p a ≡ true) → all p xs ≡ true
  mem-all [] h = refl
  mem-all (x ∷ xs) h = rw (h x (Memᴰ.head refl)) (mem-all xs (λ a m. h a (Memᴰ.tail m)))

  mem-any : {a : A} (xs : List A) → Memᴰ a xs → p a ≡ true → any p xs ≡ true
  mem-any [] m h = elim m [ ]
  mem-any (x ∷ xs) (Memᴰ.head q) h = rw (ap p (sym q) ∙ h) refl
  mem-any (x ∷ xs) (Memᴰ.tail m) h = ground (arith, mem-any xs m h)

Mem_mem : (key : ℕ) (keys : List ℕ) → Memᴰ key keys → mem key keys ≡ true
Mem_mem key keys m = mem-any (nat_beq key) keys m ((nat_beq_iff key key).1 refl)

HasTracks-is_matching :
    (types : Types) (run : TypedRun) (run_type : ℕ)
    → HasTracks types run run_type
    → is_matching_run_type types run run_type ≡ true
unfolding is_matching_run_type
HasTracks-is_matching types run run_type k =
    let tracks : List (Option String) = types.seat_types run_type in
    rw
      (
        mem-all (λ slug. any (is_slug slug) tracks) run.seats
            (λ slug m.
              mem-any (is_slug slug) tracks (k.tracked slug m) ((eq_iff slug slug).1 refl)),
        mem-all (is_seat run.seats) tracks (λ o m.
            let (slug, (e, there)) = k.seated o m in
            subst (λ x. is_seat run.seats x ≡ true) (sym e)
              (mem-any (λ s. s == slug) run.seats there ((eq_iff slug slug).1 refl))),
      )
      refl

HasModes-same_modes :
    (xs ys : List ℕ) → ((mode : ℕ) → Memᴰ mode xs ↔ Memᴰ mode ys) → same_modes xs ys ≡ true
HasModes-same_modes xs ys h =
    rw
      (
        mem-all (λ x. mem x ys) xs (λ x m. Mem_mem x ys ((h x).0 m)),
        mem-all (λ y. mem y xs) ys (λ y m. Mem_mem y xs ((h y).1 m)),
      )
      refl

modes_pass :
    (types : Types) (t : ℕ) (course : TypedCourse)
    → HasModes types t course
    → (is_empty course.entitlements || same_modes course.entitlements (types.entitlement_types t))
      ≡ true
modes_pass types t course (inl e) =
    ap (λ xs. is_empty xs || same_modes xs (types.entitlement_types t)) e
modes_pass types t course (inr h) =
    ground (arith, HasModes-same_modes course.entitlements (types.entitlement_types t) h)

type_passes :
    (types : Types) (t : ℕ) (course : TypedCourse)
    → KeepsType types t course
    → (types.is_empty_course_type course.type || nat_beq course.type t) ≡ true
type_passes types t course (inl e) = ground arith
type_passes types t course (inr e) = ground (arith, (nat_beq_iff course.type t).1 e)

Fits-do_entitlements_match :
    (types : Types) (t : ℕ) (course : TypedCourse)
    → Fits types t course
    → do_entitlements_match types course t ≡ true
unfolding do_entitlements_match
Fits-do_entitlements_match types t course k =
    ground (arith, modes_pass types t course k.modes, type_passes types t course k.keeps)

own-allowed :
    (types : Types) (mismatches : List (String × List String)) (t run_type : ℕ)
    → Memᴰ run_type (types.course_run_types t)
    → Memᴰ run_type types.all_run_types
    → mem run_type (allowed_run_types types mismatches t) ≡ true
unfolding allowed_run_types
own-allowed types mismatches t run_type own row =
    let slugs = allowed mismatches (types.course_type_slug t) in
    let test : ℕ → Bool =
      λ r. mem r (types.course_run_types t) || any (λ s. s == types.run_type_slug r) slugs in
    elim (Bool-cases (is_empty slugs)) [
      | inl e ↦ rw e (Mem_mem run_type (types.course_run_types t) own)
      | inr e ↦ rw e (
          Mem_mem run_type (keep test types.all_run_types) (
            keep-mem test types.all_run_types row
              (rw (Mem_mem run_type (types.course_run_types t) own) refl)))
    ]

FitsRun-match_run :
    (types : Types) (mismatches : List (String × List String)) (t : ℕ) (run : TypedRun)
    → FitsRun types t run
    → match_run types (allowed_run_types types mismatches t) run ≢ none
unfolding match_run
FitsRun-match_run types mismatches t run k n =
    let run_types = allowed_run_types types mismatches t in
    let there = own-allowed types mismatches t k.run_type k.own k.row in
    let good = HasTracks-is_matching types run k.run_type k.tracks in
    elim (Bool-cases (types.is_empty_run_type run.type)) [
      | inl e ↦ elim (Option-cases (first (keep (is_matching_run_type types run) run_types))) [
        | inl f ↦
            cc (first-keep-none (is_matching_run_type types run) run_types k.run_type f there, good)
        | inr (_, f) ↦ cc (rw (e, f) at n)
      ]
      | inr e ↦
          let same = k.kept e in
          let listed : mem run.type run_types ≡ true =
            subst (λ r. mem r run_types ≡ true) same there in
          let fits : is_matching_run_type types run run.type ≡ true =
            subst (λ r. is_matching_run_type types run r ≡ true) same good in
          cc (rw (e, listed, fits) at n)
    ]

Fits-match_runs :
    (types : Types) (mismatches : List (String × List String)) (t : ℕ) (runs : List TypedRun)
    → All (FitsRun types t) runs
    → match_runs types (allowed_run_types types mismatches t) runs ≢ none
unfolding match_runs
Fits-match_runs types mismatches t [] k n = cc n
Fits-match_runs types mismatches t (run ∷ runs) k n =
    let run_types = allowed_run_types types mismatches t in
    elim (Option-cases (match_run types run_types run)) [
      | inl e ↦ FitsRun-match_run types mismatches t run k.0 e
      | inr (_, e) ↦ elim (Option-cases (match_runs types run_types runs)) [
        | inl f ↦ Fits-match_runs types mismatches t runs k.1 f
        | inr (_, f) ↦ cc (rw (e, f, match_runs) at n)
      ]
    ]

pub Fits-match_course_type :
    (types : Types) (mismatches : List (String × List String)) (t : ℕ) (course : TypedCourse)
    → Fits types t course
    → match_course_type types mismatches course t ≢ none
unfolding match_course_type
Fits-match_course_type types mismatches t course k n =
    elim (Option-cases
      (match_runs types (allowed_run_types types mismatches t) course.course_runs)) [
        | inl e ↦ Fits-match_runs types mismatches t course.course_runs k.runs e
        | inr (_, e) ↦ cc (rw (Fits-do_entitlements_match types t course k, e) at n)
      ]
