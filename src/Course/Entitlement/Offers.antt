-- ===== src/Course/Entitlement/Offers.antt =====
-- What entitlement the seats of one run give (_calculate_entitlement_for_run in
-- course_discovery/apps/course_metadata/utils.py).
use mathlib.Core.List.{Memᴰ}
use mathlib.Core.List.Memᴰ
use course_discovery_ed_uhk.Base.{
  String, ◌≡◌, ◌≢◌, ◌↔◌, ◌⊎◌, ◌∙◌, refl, sym, ap, subst, Bool, true, false, Option, none, some,
  List, [], ◌∷◌, ◌++◌, ◌==◌, eq_iff, is_empty, Bool-cases, inl, inr, string_eq, keep, keep-mem,
  if◌then◌else◌,
}
use course_discovery_ed_uhk.Run.{CourseRun, Seat, verified}
use course_discovery_ed_uhk.Course.Entitlement.{
  Terms, is_entitlement_mode, terms_of, calculate_entitlement_for_run,
}

-- No mode of an entitlement.
abbrev pub IsOther : String → Type 0
IsOther mode = (mode ≢ "verified") × (mode ≢ "professional")

-- The run has exactly one seat that can be an entitlement, on the terms.
pub record Offers (terms : Terms) (run : CourseRun) : Type 0 where
  pub seat : Seat
  pub before : List Seat
  pub after : List Seat
  pub seats : run.seats ≡ before ++ seat ∷ after
  pub others : (other : Seat) → Memᴰ other (before ++ after) → IsOther other.type
  pub mode_is : (seat.type ≡ "verified") ⊎ (seat.type ≡ "professional")
  pub mode : terms.mode ≡ seat.type
  pub price : terms.price ≡ seat.price
  pub currency : terms.currency ≡ seat.currency

pub mode_iff :
    (mode : String)
    → (is_entitlement_mode mode ≡ true) ↔ ((mode ≡ "verified") ⊎ (mode ≡ "professional"))
mode_iff mode = (
  λ h. elim (Bool-cases (mode == verified)) [
    | inl e ↦ inl ((eq_iff mode "verified").0 e)
    | inr e ↦ inr ((eq_iff mode "professional").0 (rw e at h))
  ],
  λ h. elim h [
    | inl e ↦ rw ((eq_iff mode "verified").1 e) refl
    | inr e ↦ elim (Bool-cases (mode == verified)) [
      | inl f ↦ rw f refl
      | inr f ↦ rw (f, (eq_iff mode "professional").1 e) refl
    ]
  ],
)

pub IsOther-iff : (mode : String) → (is_entitlement_mode mode ≡ false) ↔ IsOther mode
IsOther-iff mode = (
  λ h. (λ e. cc ((mode_iff mode).1 (inl e), h), λ e. cc ((mode_iff mode).1 (inr e), h)),
  λ (v, p). elim (Bool-cases (is_entitlement_mode mode)) [
    | inr e ↦ e
    | inl e ↦ elim ((mode_iff mode).0 e) [ inl f ↦ absurd (v f) | inr f ↦ absurd (p f) ]
  ],
)

-- A filter that keeps one element splits the list at it.
module _ (test : Seat → Bool) where
  pub keep-nothing :
      (seats : List Seat)
      → keep test seats ≡ []
      → (other : Seat) → Memᴰ other seats
      → test other ≡ false
  keep-nothing seats e other m = elim (Bool-cases (test other)) [
    | inr f ↦ f
    | inl f ↦ elim (subst (Memᴰ other) e (keep-mem test seats m f)) [ ]
  ]

  pub nothing-keep :
      (seats : List Seat)
      → ((other : Seat) → Memᴰ other seats → test other ≡ false)
      → keep test seats ≡ []
  nothing-keep [] h = refl
  nothing-keep (seat ∷ seats) h =
      rw (h seat (Memᴰ.head refl)) (nothing-keep seats (λ other m. h other (Memᴰ.tail m)))

  pub keep_single :
      (seats : List Seat) (seat : Seat)
      → keep test seats ≡ seat ∷ []
      → (before : List Seat) × ((after : List Seat) × ((seats ≡ before ++ seat ∷ after)
            × ((test seat ≡ true)
                × ((other : Seat) → Memᴰ other (before ++ after) → test other ≡ false))))
  keep_single [] seat e = cc e
  keep_single (s ∷ seats) seat e = elim (Bool-cases (test s)) [
    | inl f ↦
        let e' : s ∷ keep test seats ≡ seat ∷ [] = rw f at e in
        let same : s ≡ seat = cc e' in
        (
          [],
          (seats, (ap (λ x. x ∷ seats) same, (ap test (sym same) ∙ f, keep-nothing seats (cc e')))),
        )
    | inr f ↦
        let (before, (after, (split, (passes, others)))) = keep_single seats seat (rw f at e) in
        (
          s ∷ before,
          (
            after,
            (
              ap (λ xs. s ∷ xs) split,
              (
                passes,
                λ other m. elim (Memᴰ.cases_cons m) [
                  | inl q ↦ ap test q ∙ f
                  | inr m' ↦ others other m'
                ],
              ),
            ),
          ),
        )
  ]

  pub single_keep :
      (before after : List Seat) (seat : Seat)
      → test seat ≡ true
      → ((other : Seat) → Memᴰ other (before ++ after) → test other ≡ false)
      → keep test (before ++ seat ∷ after) ≡ seat ∷ []
  single_keep [] after seat p h = rw (p, nothing-keep after h) refl
  single_keep (s ∷ before) after seat p h =
      rw (h s (Memᴰ.head refl)) (single_keep before after seat p (λ other m. h other (Memᴰ.tail m)))

abbrev pub terms_of_only : List Seat → Option Terms
terms_of_only [] = none
terms_of_only (seat ∷ seats) = if is_empty seats then some (terms_of seat) else none

pub same_terms_of :
    (seat : Seat) (terms : Terms)
    → terms.mode ≡ seat.type
    → terms.price ≡ seat.price
    → terms.currency ≡ seat.currency
    → terms_of seat ≡ terms
same_terms_of seat terms m p c = cc (m, p, c)

pub only_seat :
    (run : CourseRun) (terms : Terms) (kept : List Seat)
    → keep (λ seat. is_entitlement_mode seat.type) run.seats ≡ kept
    → terms_of_only kept ≡ some terms
    → Offers terms run
only_seat run terms [] e h = cc h
only_seat run terms (seat ∷ _ ∷ _) e h = cc h
only_seat run terms (seat ∷ []) e h =
    let (before, (after, (split, (passes, others)))) =
      keep_single (λ s. is_entitlement_mode s.type) run.seats seat e in
    let same : terms_of seat ≡ terms = cc h in
    record {
      seat = seat;
      before = before;
      after = after;
      seats = split;
      others = λ other m. (IsOther-iff other.type).0 (others other m);
      mode_is = (mode_iff seat.type).0 passes;
      mode = ap (λ t. t.mode) (sym same);
      price = ap (λ t. t.price) (sym same);
      currency = ap (λ t. t.currency) (sym same);
    }

pub offered :
    (run : CourseRun) (terms : Terms)
    → Offers terms run
    → terms_of_only (keep (λ seat. is_entitlement_mode seat.type) run.seats) ≡ some terms
offered run terms k =
    let test : Seat → Bool = λ seat. is_entitlement_mode seat.type in
    let one : keep test run.seats ≡ k.seat ∷ [] =
      ap (keep test) k.seats
      ∙ single_keep test k.before k.after k.seat ((mode_iff k.seat.type).1 k.mode_is)
          (λ other m. (IsOther-iff other.type).1 (k.others other m)) in
    ap terms_of_only one ∙ ap some (same_terms_of k.seat terms k.mode k.price k.currency)

pub calculate_entitlement_for_run_iff :
    (run : CourseRun) (terms : Terms)
    → (calculate_entitlement_for_run run ≡ some terms) ↔ Offers terms run
unfolding calculate_entitlement_for_run
calculate_entitlement_for_run_iff run terms =
    let test : Seat → Bool = λ seat. is_entitlement_mode seat.type in
    (λ h. only_seat run terms (keep test run.seats) refl h, λ k. offered run terms k)
