-- ===== src/Loaders/Ecommerce/Invariants.antt =====
-- What holds of a state through the calls of the ecommerce loader, and that no call but the deletion
-- loses an entitlement.
use course_discovery_ed_uhk.Base.{
  ℕ, String, ◌≡◌, true, ◌&&◌, not, Option, none, some, List, [], ◌∷◌, ◌++◌, arith, nat_beq_iff,
  ◌==◌, string_eq, eq_iff, if◌then◌else◌, any, map, keep, is_empty, Bool-cases, Option-cases,
  List-cases, inl, inr,
}
use course_discovery_ed_uhk.Course.Types.{mem}
use course_discovery_ed_uhk.Loaders.Ecommerce.{
  Run, ProductBody, CourseRunBody, EntitlementBody, EnrollmentCodeBody, Course, Entitlement,
  Catalog, State, Call, returned, raised, state_of, and_then, for_each,
}
use course_discovery_ed_uhk.Loaders.Ecommerce.Seats.{
  write_seat, read_stock_record, update_seat, with_run, remove_seats, update_run, update_seats,
  is_child,
}
use course_discovery_ed_uhk.Loaders.Ecommerce.Entitlements.{
  is_of, append_sku, append_enrollment_sku, update_or_create_entitlement, write_entitlement,
  update_entitlement, if_valid, write_enrollment_code, update_enrollment_code, validate_stockrecord,
  Validated, valid, invalid, raises, course_of, mode_of, run_of, has_type,
}

-- A predicate that a call and what comes after it keep, is kept by both.
pub and_then_keeps {ℓ} :
    (K : State → Type ℓ) (c : Call) (f : State → Call)
    → K (state_of c)
    → ((s : State) → K s → K (state_of (f s)))
    → K (state_of (and_then c f))
unfolding and_then state_of
and_then_keeps K (returned s) f k h = h s k
and_then_keeps K (raised s) f k h = k

pub for_each_keeps {ℓ ℓ'} :
    (K : State → Type ℓ) {A : Type ℓ'} (f : A → State → Call) (xs : List A) (s : State)
    → ((x : A) (t : State) → K t → K (state_of (f x t)))
    → K s
    → K (state_of (for_each f xs s))
unfolding for_each state_of
for_each_keeps K f [] s h k = k
for_each_keeps K f (x ∷ xs) s h k =
    and_then_keeps K (f x s) (λ t. for_each f xs t) (h x s k) (λ t k'. for_each_keeps K f xs t h k')

replace_keeps :
    (course : String) (mode : ℕ) (new : Entitlement) (es : List Entitlement)
    → any (is_of course mode) es ≡ true
    → any (is_of course mode) (map (λ e. if is_of new.course new.mode e then new else e) es) ≡ true
replace_keeps course mode new [] h = h
replace_keeps course mode new (e ∷ es) h =
    let again = replace_keeps course mode new es in
    grind (
      arith,
      eq_iff e.course course,
      eq_iff e.course new.course,
      eq_iff new.course course,
      nat_beq_iff e.mode mode,
      nat_beq_iff e.mode new.mode,
      nat_beq_iff new.mode mode,
      again,
    )

append_keeps :
    (course : String) (mode : ℕ) (new : Entitlement) (es : List Entitlement)
    → any (is_of course mode) es ≡ true
    → any (is_of course mode) (es ++ new ∷ []) ≡ true
append_keeps course mode new [] h = ground arith
append_keeps course mode new (e ∷ es) h =
    let again = append_keeps course mode new es in ground (arith, again)

update_or_create_entitlement_keeps :
    (course : String) (mode : ℕ) (new : Entitlement) (es : List Entitlement)
    → any (is_of course mode) es ≡ true
    → any (is_of course mode) (update_or_create_entitlement new es) ≡ true
unfolding update_or_create_entitlement
update_or_create_entitlement_keeps course mode new es h =
    let replaced = replace_keeps course mode new es h in
    let appended = append_keeps course mode new es h in ground (arith, replaced, appended)

-- The course has an entitlement of the mode.
abbrev pub HasEntitlement : String → ℕ → State → Type 0
HasEntitlement course mode s = any (is_of course mode) s.entitlements ≡ true

module _ (course : String) (mode : ℕ) where
  abbrev K : State → Type 0
  K = HasEntitlement course mode

  write_seat_keeps :
      (catalog : Catalog) (run : Run) (product : ProductBody) (currency : String) (price : ℕ)
      (sku : String) (s : State)
      → K s
      → K (state_of (write_seat catalog run product currency price sku s))
  unfolding write_seat state_of
  write_seat_keeps catalog run product currency price sku s k = ground arith

  update_seat_keeps :
      (catalog : Catalog) (run : Run) (product : ProductBody) (s : State)
      → K s
      → K (state_of (update_seat catalog run product s))
  unfolding update_seat state_of
  update_seat_keeps catalog run product s k =
      elim (Option-cases (read_stock_record product.stockrecords)) [
        | inl e ↦ rw (e, update_seat) k
        | inr ((currency, price, sku), e) ↦
            rw (e, update_seat) (write_seat_keeps catalog run product currency price sku s k)
      ]

  with_run_keeps :
      (key : String) (f : Run → State → Call) (runs : List Run) (s : State)
      → ((run : Run) (t : State) → K t → K (state_of (f run t)))
      → K s
      → K (state_of (with_run key f runs s))
  unfolding with_run state_of
  with_run_keeps key f [] s h k = k
  with_run_keeps key f (run ∷ runs) s h k = elim (Bool-cases (run.key == key)) [
    | inl e ↦ rw (e, with_run) (h run s k)
    | inr e ↦ rw (e, with_run) (with_run_keeps key f runs s h k)
  ]

  update_run_keeps :
      (catalog : Catalog) (key : String) (products : List ProductBody) (s : State)
      → K s
      → K (state_of (update_run catalog key products s))
  unfolding update_run
  update_run_keeps catalog key products s k =
      and_then_keeps K _ _
        (for_each_keeps K _ (keep is_child products) s
          (λ product t k'.
            with_run_keeps key _ t.runs t (λ run u. update_seat_keeps catalog run product u) k')
          k)
        (λ t k'. unfold state_of remove_seats in k')

  pub update_seats_keeps :
      (catalog : Catalog) (body : CourseRunBody) (s : State)
      → K s
      → K (state_of (update_seats catalog body s))
  unfolding update_seats state_of
  update_seats_keeps catalog body s k =
      elim (List-cases (keep (λ run. catalog.iexact run.key body.id) s.runs)) [
        | inl e ↦ rw (e, update_seats) k
        | inr (run, (others, e)) ↦ elim (Bool-cases (is_empty others)) [
          | inl f ↦ rw (e, update_seats) (rw f (update_run_keeps catalog run.key body.products s k))
          | inr f ↦ rw (e, update_seats) (rw f k)
        ]
      ]

  pub write_entitlement_keeps :
      (catalog : Catalog) (partner : ℕ) (found : Option Course) (m : Option ℕ) (currency : String)
      (price : ℕ) (sku : String) (s : State)
      → K s
      → K (write_entitlement catalog partner found m currency price sku s)
  write_entitlement_keeps catalog partner none m currency price sku s k =
      unfold write_entitlement in k
  write_entitlement_keeps catalog partner (some c) none currency price sku s k =
      unfold write_entitlement in k
  write_entitlement_keeps catalog partner (some c) (some m) currency price sku s k =
      unfold write_entitlement in
      elim (Bool-cases (
        not (catalog.types.is_empty_course_type c.type)
        && not (mem m (catalog.types.entitlement_types c.type)))) [
          | inl e ↦ rw e k
          | inr e ↦ rw e (update_or_create_entitlement_keeps course mode _ s.entitlements k)
        ]

  pub if_valid_keeps :
      (v : Validated) (s otherwise : State) (f : String → ℕ → String → Call)
      → K s
      → K otherwise
      → ((currency : String) (price : ℕ) (sku : String) → K (state_of (f currency price sku)))
      → K (state_of (if_valid v s otherwise f))
  unfolding if_valid state_of
  if_valid_keeps raises s otherwise f k o h = k
  if_valid_keeps invalid s otherwise f k o h = o
  if_valid_keeps (valid currency price sku) s otherwise f k o h = h currency price sku

  write_enrollment_code_keeps :
      (found : Option Run) (seat_type : Option String) (sku : String) (s : State)
      → K s
      → K (state_of (write_enrollment_code found seat_type sku s))
  unfolding write_enrollment_code state_of
  write_enrollment_code_keeps none seat_type sku s k = k
  write_enrollment_code_keeps (some run) seat_type sku s k =
      elim (List-cases (keep (has_type seat_type) run.seats)) [
        | inl e ↦ rw (e, write_enrollment_code) k
        | inr (_, (others, e)) ↦ elim (Bool-cases (is_empty others)) [
          | inl f ↦ rw (e, write_enrollment_code) (rw f k)
          | inr f ↦ rw (e, write_enrollment_code) (rw f k)
        ]
      ]

  pub update_entitlement_keeps :
      (catalog : Catalog) (partner : ℕ) (body : EntitlementBody) (s : State)
      → K s
      → K (state_of (update_entitlement catalog partner body s))
  unfolding update_entitlement state_of
  update_entitlement_keeps catalog partner body s k =
      if_valid_keeps (validate_stockrecord catalog body.stockrecords) s (append_sku none s)
        (λ currency price sku. returned (
          write_entitlement catalog partner (course_of body.course_uuid s.courses)
            (mode_of catalog body.certificate_type) currency price sku s))
        k k
        (λ currency price sku.
          write_entitlement_keeps catalog partner (course_of body.course_uuid s.courses)
            (mode_of catalog body.certificate_type) currency price sku s k)

  pub update_enrollment_code_keeps :
      (catalog : Catalog) (body : EnrollmentCodeBody) (s : State)
      → K s
      → K (state_of (update_enrollment_code catalog body s))
  unfolding update_enrollment_code
  update_enrollment_code_keeps catalog body s k =
      if_valid_keeps (validate_stockrecord catalog body.stockrecords) s
        (append_enrollment_sku none s)
        (λ currency price sku.
          write_enrollment_code (run_of body.course_key s.runs) body.seat_type sku s)
        k k
        (λ currency price sku.
          write_enrollment_code_keeps (run_of body.course_key s.runs) body.seat_type sku s k)
