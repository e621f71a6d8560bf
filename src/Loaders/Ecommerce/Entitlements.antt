-- ===== src/Loaders/Ecommerce/Entitlements.antt =====
-- validate_stockrecord, update_entitlement, update_enrollment_code and _delete_entitlements of
-- EcommerceApiDataLoader (course_discovery/apps/course_metadata/data_loaders/api.py). A uuid in a
-- body is well formed or missing.
use course_discovery_ed_uhk.Base.{
  ℕ, String, Bool, false, ◌&&◌, ◌||◌, not, Option, none, some, List, [], ◌∷◌, ◌++◌, ◌==◌, string_eq,
  if◌then◌else◌, any, keep, map, is_empty, nat_beq,
}
use course_discovery_ed_uhk.Course.Types.{mem}
use course_discovery_ed_uhk.Loaders.Ecommerce.{
  cents, malformed, StockRecord, EntitlementBody, EnrollmentCodeBody, Seat, Run, Course,
  Entitlement, Catalog, State, Call, returned, raised, with_failure, is_currency, seat_type_of,
}
use course_discovery_ed_uhk.Loaders.Ecommerce.Seats.{with_seats}

-- What validate_stockrecord comes to: the fields of a valid record, no SKU, or an exception.
-- `Decimal` raises InvalidOperation or TypeError, and only KeyError and ValueError are caught.
pub data Validated : Type 0 where
  valid : (currency : String) → (price : ℕ) → (sku : String) → Validated
  invalid : Validated
  raises : Validated

unfoldable pub validate_record : Catalog → StockRecord → Validated
validate_record catalog stock_record = elim stock_record.price_currency [
  | none ↦ invalid
  | some currency ↦ elim stock_record.price_excl_tax [
    | none ↦ invalid
    | some price ↦ elim price [
      | malformed ↦ raises
      | cents c ↦ elim stock_record.partner_sku [
        | none ↦ invalid
        | some sku ↦ if is_currency catalog currency then valid currency c sku else invalid
      ]
    ]
  ]
]

unfoldable pub validate_stockrecord : Catalog → List StockRecord → Validated
unfolding validate_record
validate_stockrecord catalog [] = invalid
validate_stockrecord catalog (stock_record ∷ _) = validate_record catalog stock_record

-- An exception, what is done without a valid record, or what is done with its fields.
unfoldable pub if_valid : Validated → State → State → (String → ℕ → String → Call) → Call
if_valid raises s otherwise f = raised s
if_valid invalid s otherwise f = returned otherwise
if_valid (valid currency price sku) s otherwise f = f currency price sku

-- `self.entitlement_skus.append(...)`
abbrev pub append_sku : Option String → State → State
append_sku sku s = record s { entitlement_skus = s.entitlement_skus ++ sku ∷ [] }

abbrev pub is_of : String → ℕ → Entitlement → Bool
is_of course mode entitlement = (entitlement.course == course) && nat_beq entitlement.mode mode

-- `course.entitlements.update_or_create(mode=mode, defaults=defaults)`; a course has one
-- entitlement of a mode at most (`unique_together`).
unfoldable pub update_or_create_entitlement : Entitlement → List Entitlement → List Entitlement
update_or_create_entitlement new entitlements =
    if any (is_of new.course new.mode) entitlements
    then map (λ e. if is_of new.course new.mode e then new else e) entitlements
    else entitlements ++ new ∷ []

-- `Course.objects.get(uuid=course_uuid)`
abbrev pub course_of : Option String → List Course → Option Course
course_of none courses = none
course_of (some uuid) [] = none
course_of (some uuid) (course ∷ courses) =
    if course.uuid == uuid then some course else course_of (some uuid) courses

abbrev pub mode_of : Catalog → Option String → Option ℕ
mode_of catalog none = none
mode_of catalog (some slug) = seat_type_of catalog.seat_types slug

-- From the look-up of the course on, with the SKU appended.
unfoldable pub write_entitlement :
    Catalog → ℕ → Option Course → Option ℕ → String → ℕ → String → State → State
unfolding update_or_create_entitlement
write_entitlement catalog partner none mode currency price sku s = append_sku none s
write_entitlement catalog partner (some course) none currency price sku s =
    append_sku none (with_failure s)
write_entitlement catalog partner (some course) (some mode) currency price sku s =
    if not (catalog.types.is_empty_course_type course.type)
      && not (mem mode (catalog.types.entitlement_types course.type))
    then append_sku none (with_failure s)
    else append_sku (some sku) (record s {
      entitlements =
          update_or_create_entitlement
            (record {
              course = course.uuid;
              mode = mode;
              partner = partner;
              price = price;
              currency = currency;
              sku = some sku;
            })
            s.entitlements;
    })

-- The call of update_entitlement in _process_entitlements.
unfoldable pub update_entitlement : Catalog → ℕ → EntitlementBody → State → Call
unfolding validate_stockrecord if_valid write_entitlement
update_entitlement catalog partner body s =
    if_valid (validate_stockrecord catalog body.stockrecords) s (append_sku none s)
      (λ currency price sku. returned (
        write_entitlement catalog partner (course_of body.course_uuid s.courses)
          (mode_of catalog body.certificate_type) currency price sku s))

abbrev pub append_enrollment_sku : Option String → State → State
append_enrollment_sku sku s = record s { enrollment_skus = s.enrollment_skus ++ sku ∷ [] }

-- `CourseRun.objects.get(key=course_key)`
abbrev pub run_of : Option String → List Run → Option Run
run_of none runs = none
run_of (some key) [] = none
run_of (some key) (run ∷ runs) = if run.key == key then some run else run_of (some key) runs

abbrev pub has_type : Option String → Seat → Bool
has_type none seat = false
has_type (some type) seat = seat.type == type

-- The one seat of the type gets the bulk SKU; `get` raises where there are several.
unfoldable pub write_enrollment_code : Option Run → Option String → String → State → Call
write_enrollment_code none seat_type sku s = returned (append_enrollment_sku none s)
write_enrollment_code (some run) seat_type sku s = elim (keep (has_type seat_type) run.seats) [
  | [] ↦ returned (append_enrollment_sku none s)
  | _ ∷ others ↦
      if is_empty others
      then returned (
          append_enrollment_sku (some sku) (
            with_seats run.key
              (map
                (λ seat.
                  if has_type seat_type seat then record seat { bulk_sku = some sku } else seat)
                run.seats)
              s))
      else raised s
]

unfoldable pub update_enrollment_code : Catalog → EnrollmentCodeBody → State → Call
unfolding validate_stockrecord if_valid write_enrollment_code
update_enrollment_code catalog body s =
    if_valid (validate_stockrecord catalog body.stockrecords) s (append_enrollment_sku none s)
      (λ currency price sku.
        write_enrollment_code (run_of body.course_key s.runs) body.seat_type sku s)

-- `filter(partner=self.partner).exclude(sku__in=self.entitlement_skus)` is deleted.
unfoldable pub delete_entitlements : Catalog → ℕ → State → State
delete_entitlements catalog partner s = record s {
  entitlements =
      keep (λ e. not (nat_beq e.partner partner) || catalog.sku_in s.entitlement_skus e.sku)
        s.entitlements;
}
