-- ===== src/Loaders/Ecommerce.antt =====
-- The rows that EcommerceApiDataLoader (course_discovery/apps/course_metadata/data_loaders/api.py)
-- reads and writes, and the bodies that ecommerce answers with, after `clean_strings`. The bodies
-- hold what the loader reads of them: dates are parsed, and `certificate_types` are the values of
-- the attributes of that name, in their order. Whether two keys are the same but for case is a
-- parameter, and so is the test that SQL makes for `sku__in`.
pub mod Seats
pub mod Entitlements
pub mod Ingest
pub mod Invariants
pub mod Deletes
pub mod SeatRows
use course_discovery_ed_uhk.Base.{
  ℕ, String, Bool, true, false, ◌&&◌, Option, none, some, List, [], ◌∷◌, ◌==◌, string_eq,
  if◌then◌else◌, any, all, keep,
}
use course_discovery_ed_uhk.Course.Types.{Types, TypedCourse}

-- A price: a number of cents, or text of which `Decimal` raises.
pub data Price : Type 0 where
  cents : ℕ → Price
  malformed : Price

-- A stock record, whose keys may be missing; one that is there is not null.
pub record StockRecord : Type 0 where
  pub price_currency : Option String
  pub price_excl_tax : Option Price
  pub partner_sku : Option String

pub record ProductBody : Type 0 where
  pub structure : String
  pub stockrecords : List StockRecord
  pub certificate_types : List String
  pub credit_provider : Option String
  pub credit_hours : Option ℕ
  pub expires : Option ℕ

pub record CourseRunBody : Type 0 where
  pub id : String
  pub products : List ProductBody

pub record EntitlementBody : Type 0 where
  pub course_uuid : Option String
  pub certificate_type : Option String
  pub stockrecords : List StockRecord

pub record EnrollmentCodeBody : Type 0 where
  pub course_key : Option String
  pub seat_type : Option String
  pub stockrecords : List StockRecord

pub record Seat : Type 0 where
  pub type : String
  pub credit_provider : Option String
  pub currency : String
  pub price : ℕ
  pub sku : Option String
  pub upgrade_deadline : Option ℕ
  pub credit_hours : Option ℕ
  pub bulk_sku : Option String

pub record Run : Type 0 where
  pub key : String
  pub course : String
  pub type : ℕ
  pub seats : List Seat

pub record Course : Type 0 where
  pub uuid : String
  pub type : ℕ

pub record Entitlement : Type 0 where
  pub course : String
  pub mode : ℕ
  pub partner : ℕ
  pub price : ℕ
  pub currency : String
  pub sku : Option String

-- The tables that the loader only reads: the rows of the types, the codes of the currencies, the
-- slugs of the seat types with their keys, and the course types in the order of their creation.
pub record Catalog : Type 0 where
  pub types : Types
  pub currencies : List String
  pub seat_types : List (String × ℕ)
  pub course_types : List ℕ
  pub iexact : String → String → Bool
  pub sku_in : List (Option String) → Option String → Bool

-- The official rows, runs in the order of their keys; the draft courses, of which the loader
-- changes the types only; and the attributes of the loader.
pub record State : Type 0 where
  pub runs : List Run
  pub courses : List Course
  pub entitlements : List Entitlement
  pub draft_courses : List TypedCourse
  pub entitlement_skus : List (Option String)
  pub enrollment_skus : List (Option String)
  pub processing_failure_occurred : Bool
  pub course_run_count : ℕ
  pub entitlement_count : ℕ
  pub enrollment_code_count : ℕ

-- A call, with the state that it leaves: it returns, or an exception leaves it.
pub data Call : Type 0 where
  returned : State → Call
  raised : State → Call

unfoldable pub state_of : Call → State
state_of (returned s) = s
state_of (raised s) = s

-- What comes after a call, unless it raised.
unfoldable pub and_then : Call → (State → Call) → Call
and_then (returned s) f = f s
and_then (raised s) f = raised s

unfoldable pub for_each {ℓ} : {A : Type ℓ} → (A → State → Call) → List A → State → Call
unfolding and_then
for_each f [] s = returned s
for_each f (x ∷ xs) s = and_then (f x s) (λ s'. for_each f xs s')

abbrev pub with_failure : State → State
with_failure s = record s { processing_failure_occurred = true }

-- `Currency.objects.get(code=currency_code)`, found or not
abbrev pub is_currency : Catalog → String → Bool
is_currency catalog code = any (λ c. c == code) catalog.currencies

-- `SeatType.objects.get(slug=...)`: the key of the seat type
abbrev pub seat_type_of : List (String × ℕ) → String → Option ℕ
seat_type_of [] slug = none
seat_type_of ((s, id) ∷ seat_types) slug =
    if s == slug then some id else seat_type_of seat_types slug
