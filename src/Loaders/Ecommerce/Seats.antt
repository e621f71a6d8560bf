-- ===== src/Loaders/Ecommerce/Seats.antt =====
-- update_seats, update_seat and get_certificate_type of EcommerceApiDataLoader
-- (course_discovery/apps/course_metadata/data_loaders/api.py).
use course_discovery_ed_uhk.Base.{
  ℕ, String, Bool, true, false, ◌&&◌, not, Option, none, some, List, [], ◌∷◌, ◌++◌, ◌==◌, string_eq,
  if◌then◌else◌, any, keep, map, is_empty,
}
use course_discovery_ed_uhk.Run.{audit}
use course_discovery_ed_uhk.Course.Types.{is_slug}
use course_discovery_ed_uhk.Loaders.Ecommerce.{
  cents, malformed, StockRecord, ProductBody, CourseRunBody, Seat, Run, Catalog, State, Call,
  returned, raised, and_then, for_each, with_failure, is_currency, seat_type_of,
}

-- `get_certificate_type`: the first value, or audit
abbrev pub get_certificate_type : ProductBody → String
get_certificate_type product = elim product.certificate_types [ [] ↦ audit | slug ∷ _ ↦ slug ]

-- `attributes.get('certificate_type', Seat.AUDIT)` on a dict, where the last value stays
abbrev pub last_or : String → List String → String
last_or default [] = default
last_or default (slug ∷ slugs) = last_or slug slugs

abbrev pub same_option : Option String → Option String → Bool
same_option none none = true
same_option (some a) (some b) = a == b
same_option none (some _) = false
same_option (some _) none = false

-- The look-up fields of `course_run.seats.update_or_create`.
abbrev pub is_same_seat : String → Option String → String → Seat → Bool
is_same_seat type credit_provider currency seat =
    (seat.type == type)
    && same_option seat.credit_provider credit_provider
    && (seat.currency == currency)

-- The seats afterwards: one match is updated, none makes a new one, and more raise.
unfoldable pub update_or_create : Seat → List Seat → Option (List Seat)
update_or_create new seats =
    let is_match = is_same_seat new.type new.credit_provider new.currency in
    elim (keep is_match seats) [
      | [] ↦ some (seats ++ new ∷ [])
      | _ ∷ others ↦
          if is_empty others
          then some (
              map (λ seat. if is_match seat then record new { bulk_sku = seat.bulk_sku } else seat)
                seats)
          else none
    ]

abbrev pub with_seats : String → List Seat → State → State
with_seats key seats s = record s {
  runs = map (λ run. if run.key == key then record run { seats = seats } else run) s.runs;
}

-- From the look-ups on, with the fields of the stock record.
unfoldable pub write_seat : Catalog → Run → ProductBody → String → ℕ → String → State → Call
unfolding update_or_create
write_seat catalog run product currency price sku s =
    let type = last_or audit product.certificate_types in
    let seats =
      update_or_create
        (record {
          type = type;
          credit_provider = product.credit_provider;
          currency = currency;
          price = price;
          sku = some sku;
          upgrade_deadline = product.expires;
          credit_hours = product.credit_hours;
          bulk_sku = none;
        })
        run.seats in
    if not (is_currency catalog currency)
    then returned s
    else elim (seat_type_of catalog.seat_types type) [
      | none ↦ returned (with_failure s)
      | some _ ↦
          if not (catalog.types.is_empty_run_type run.type)
            && not (any (is_slug type) (catalog.types.seat_types run.type))
          then returned (with_failure s)
          else elim seats [ none ↦ raised s | some seats' ↦ returned (with_seats run.key seats' s) ]
    ]

-- The currency, the price and the SKU of the first stock record; a missing one raises.
unfoldable pub read_stock_record : List StockRecord → Option (String × ℕ × String)
read_stock_record [] = none
read_stock_record (stock_record ∷ _) = elim stock_record.price_currency [
  | none ↦ none
  | some currency ↦ elim stock_record.price_excl_tax [
    | none ↦ none
    | some price ↦ elim price [
      | malformed ↦ none
      | cents c ↦ elim stock_record.partner_sku [ none ↦ none | some sku ↦ some (currency, c, sku) ]
    ]
  ]
]

unfoldable pub update_seat : Catalog → Run → ProductBody → State → Call
unfolding read_stock_record write_seat
update_seat catalog run product s = elim (read_stock_record product.stockrecords) [
  | none ↦ raised s
  | some (currency, price, sku) ↦ write_seat catalog run product currency price sku s
]

abbrev pub is_child : ProductBody → Bool
is_child product = product.structure == "child"

-- The run with the key as it is now: `course_run.seats` asks the database.
unfoldable pub with_run : String → (Run → State → Call) → List Run → State → Call
with_run key f [] s = returned s
with_run key f (run ∷ runs) s = if run.key == key then f run s else with_run key f runs s

-- The seats that do not exist any more are removed.
unfoldable pub remove_seats : String → List String → State → State
remove_seats key certificate_types s = record s {
  runs =
      map
        (λ run.
          if run.key == key
          then record run {
            seats = keep (λ seat. any (λ t. t == seat.type) certificate_types) run.seats;
          }
          else run)
        s.runs;
}

unfoldable pub update_run : Catalog → String → List ProductBody → State → Call
unfolding and_then for_each update_seat with_run remove_seats
update_run catalog key products s =
    and_then
      (for_each (λ product s'. with_run key (λ run. update_seat catalog run product) s'.runs s')
        (keep is_child products) s)
      (λ s'. returned (remove_seats key (map get_certificate_type (keep is_child products)) s'))

-- `update_seats`: an unknown run is left, and two runs whose keys differ in case only raise.
unfoldable pub update_seats : Catalog → CourseRunBody → State → Call
unfolding update_run
update_seats catalog body s = elim (keep (λ run. catalog.iexact run.key body.id) s.runs) [
  | [] ↦ returned s
  | run ∷ others ↦ if is_empty others then update_run catalog run.key body.products s else raised s
]
