-- ===== src/Course/Entitlement/Agreement.antt =====
-- When an entitlement can be formed from the seats of a course, and which.
use course_discovery_ed_uhk.Course.Entitlement.Offers.{Offers, calculate_entitlement_for_run_iff}
use course_discovery_ed_uhk.Course.Entitlement.Asked.{IsAsked, no_runs, runs_left, runs_to_ask_mem}
use course_discovery_ed_uhk.Base.{
  ℕ, ◌≡◌, ◌≢◌, ◌↔◌, refl, sym, ap, subst, true, false, Option, none, some, List, [], ◌∷◌, arith,
  eq_iff, all, is_empty, All, All-mem, All-of_mem, Bool-cases, inl, inr, string_eq,
}
use course_discovery_ed_uhk.Run.{CourseRun}
use course_discovery_ed_uhk.Course.Entitlement.{
  Terms, same_terms, calculate_entitlement_for_run, runs_to_ask, agreed_terms,
  calculate_entitlement_for_course,
}

same_terms_eq : (a b : Option Terms) → same_terms a b ≡ true → a ≡ b
same_terms_eq none none h = refl
same_terms_eq (some a) (some b) h =
    ground (arith, eq_iff a.mode b.mode, eq_iff a.currency b.currency)
same_terms_eq none (some b) h = cc
same_terms_eq (some a) none h = cc

same_terms_refl : (a : Option Terms) → same_terms a a ≡ true
same_terms_refl none = refl
same_terms_refl (some a) = ground (arith, eq_iff a.mode a.mode, eq_iff a.currency a.currency)

-- There are runs, and each that is asked offers the terms.
abbrev pub AllOffer : ℕ → List CourseRun → Terms → Type 0
AllOffer now course_runs terms =
    (course_runs ≢ []) × ((run : CourseRun) → IsAsked now course_runs run → Offers terms run)

agree_all :
    (o : Option Terms) (runs : List CourseRun)
    → all (λ r. same_terms o (calculate_entitlement_for_run r)) runs ≡ true
    → All (λ run. calculate_entitlement_for_run run ≡ o) runs
agree_all o [] h = tt
agree_all o (r ∷ runs) h = (
  sym (same_terms_eq o (calculate_entitlement_for_run r) (ground arith)),
  agree_all o runs (ground arith),
)

all_agree :
    (o : Option Terms) (runs : List CourseRun)
    → All (λ run. calculate_entitlement_for_run run ≡ o) runs
    → all (λ r. same_terms o (calculate_entitlement_for_run r)) runs ≡ true
all_agree o [] h = refl
all_agree o (r ∷ runs) h = rw (h.0, same_terms_refl o, all_agree o runs h.1) refl

abbrev AllGive : Terms → List CourseRun → Type 0
AllGive terms runs =
    (is_empty runs ≡ false) × All (λ run. calculate_entitlement_for_run run ≡ some terms) runs

agreed_terms_iff :
    (terms : Terms) (runs : List CourseRun) → (agreed_terms runs ≡ some terms) ↔ AllGive terms runs
unfolding agreed_terms
agreed_terms_iff terms [] = (λ h. cc, λ h. cc (h.0))
agreed_terms_iff terms (run ∷ runs) = (
  λ h.
      elim (Bool-cases (
        all (λ r. same_terms (calculate_entitlement_for_run run) (calculate_entitlement_for_run r))
          runs)) [
            | inl e ↦
                let f : calculate_entitlement_for_run run ≡ some terms = rw e at h in
                (
                  refl,
                  (
                    f,
                    subst (λ o. All (λ r. calculate_entitlement_for_run r ≡ o) runs) f
                        (agree_all (calculate_entitlement_for_run run) runs e),
                  ),
                )
            | inr e ↦ cc (rw e at h)
          ],
  λ h. rw (h.1.0, all_agree (some terms) runs h.1.1) refl,
)

-- An entitlement can be formed for a course exactly when it has runs and each run that is asked, that
-- is each active one, or the last one where none is active, has just one verified or professional
-- seat, with the mode, price and currency of the entitlement.
pub calculate_entitlement_for_course_iff :
    (now : ℕ) (course_runs : List CourseRun) (terms : Terms)
    → (calculate_entitlement_for_course now course_runs ≡ some terms)
      ↔ AllOffer now course_runs terms
unfolding calculate_entitlement_for_course
calculate_entitlement_for_course_iff now course_runs terms =
    let agreed = agreed_terms_iff terms (runs_to_ask now course_runs) in
    let asked = runs_to_ask_mem now course_runs in
    (
      λ h.
          let (some_run, give) = agreed.0 h in
          (
            λ empty. cc (ap (runs_to_ask now) empty, no_runs now, some_run),
            λ run is_asked. (calculate_entitlement_for_run_iff run terms).0 (
                All-mem (λ r. calculate_entitlement_for_run r ≡ some terms)
                  (runs_to_ask now course_runs) give ((asked run).1 is_asked)),
          ),
      λ (present, offer). agreed.1 (
        runs_left now course_runs present,
        All-of_mem (λ r. calculate_entitlement_for_run r ≡ some terms) (runs_to_ask now course_runs)
            (λ run m.
              (calculate_entitlement_for_run_iff run terms).1 (offer run ((asked run).0 m))),
      ),
    )
