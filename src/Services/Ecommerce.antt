-- ===== src/Services/Ecommerce.antt =====
-- push_to_ecommerce_for_course_run (course_discovery/apps/course_metadata/utils.py). The answer of
-- ecommerce is a parameter: a function of the products that are sent. A row and its draft version
-- are kept side by side. The title, the keys and the address are left out of the request.
pub mod Skus
use course_discovery_ed_uhk.Base.{
  ℕ, String, Bool, true, false, ◌&&◌, ◌||◌, not, Option, none, some, List, [], ◌∷◌, ◌++◌, map, leb,
  ltb, nat_beq, ◌==◌, string_eq, if◌then◌else◌, length, is_empty, present_and, any,
}
use course_discovery_ed_uhk.Run.{Seat, verified, upgrade_deadline}
use course_discovery_ed_uhk.Run.SeatUpdate.{
  Result, ok, validation_error, type_error, overflow_error, multiple_objects_returned, ◌>>=◌,
  subtract_deadline_delta,
}
use course_discovery_ed_uhk.Course.Entitlement.{Entitlement}
use course_discovery_ed_uhk.Services.{Mode, Track}

-- `calculated_seat_upgrade_deadline`, with the end of the seat's run
unfoldable pub calculated_seat_upgrade_deadline : ℕ → Option ℕ → Seat → Result (Option ℕ)
unfolding subtract_deadline_delta
calculated_seat_upgrade_deadline days end seat =
    if not (seat.type == verified) then ok none else elim (upgrade_deadline seat) [
      | some deadline ↦ ok (some deadline)
      | none ↦ elim end [
        | none ↦ ok none
        | some date ↦ subtract_deadline_delta (some date) days >>= λ deadline. ok (some deadline)
      ]
    ]

-- A row to sell: a seat with the mode of its track, or an entitlement, with the draft version.
pub data Product : Type 0 where
  of_seat : Seat → Option Seat → Mode → Product
  of_entitlement : Entitlement → Option Entitlement → Product

-- What is sent of a product.
pub data SentProduct : Type 0 where
  sent_seat :
      (expires : Option ℕ) → (price : ℕ) → (partner_sku : Option String) → Mode → SentProduct
  sent_entitlement : (price : ℕ) → (mode : String) → SentProduct

unfoldable pub serialize_product : ℕ → Option ℕ → Product → Result SentProduct
unfolding calculated_seat_upgrade_deadline
serialize_product days end (of_seat seat draft mode) =
    calculated_seat_upgrade_deadline days end seat >>= λ expires.
    ok (sent_seat expires seat.price seat.sku mode)
serialize_product days end (of_entitlement entitlement draft) =
    ok (sent_entitlement entitlement.price entitlement.mode)

unfoldable pub serialize_products : ℕ → Option ℕ → List Product → Result (List SentProduct)
unfolding serialize_product
serialize_products days end [] = ok []
serialize_products days end (product ∷ products) = serialize_product days end product >>= λ sent.
    serialize_products days end products >>= λ rest. ok (sent ∷ rest)

-- The first track of the seat's type gives the mode.
unfoldable pub mode_of : List Track → Seat → Option Mode
mode_of [] seat = none
mode_of (track ∷ tracks) seat =
    if present_and (λ slug. seat.type == slug) track.seat_type
    then some track.mode
    else mode_of tracks seat

-- `seats_with_modes`
unfoldable pub seats_with_modes : List Track → List (Seat × Option Seat) → List Product
unfolding mode_of
seats_with_modes tracks [] = []
seats_with_modes tracks ((seat, draft) ∷ seats) =
    let rest = seats_with_modes tracks seats in
    elim (mode_of tracks seat) [ none ↦ rest | some mode ↦ of_seat seat draft mode ∷ rest ]

abbrev pub entitlement_products : List (Entitlement × Option Entitlement) → List Product
entitlement_products entitlements = map (λ e. of_entitlement e.0 e.1) entitlements

unfoldable pub discovery_products :
    List Track → List (Seat × Option Seat) → List (Entitlement × Option Entitlement) → List Product
unfolding seats_with_modes
discovery_products tracks seats entitlements =
    seats_with_modes tracks seats ++ entitlement_products entitlements

-- What ecommerce answers: its status, and the `partner_sku` of each product it lists.
pub record Answer : Type 0 where
  pub status_code : ℕ
  pub products : List (Option String)

abbrev pub set_seat_sku : String → Seat → Seat
set_seat_sku sku seat = record seat { sku = some sku }

abbrev pub set_entitlement_sku : String → Entitlement → Entitlement
set_entitlement_sku sku entitlement = record entitlement { sku = some sku }

abbrev pub map_draft {ℓ} : {A : Type ℓ} → (A → A) → Option A → Option A
map_draft f none = none
map_draft f (some a) = some (f a)

unfoldable pub set_sku : String → Product → Product
set_sku sku (of_seat seat draft mode) =
    of_seat (set_seat_sku sku seat) (map_draft (set_seat_sku sku) draft) mode
set_sku sku (of_entitlement entitlement draft) =
    of_entitlement (set_entitlement_sku sku entitlement) (map_draft (set_entitlement_sku sku) draft)

-- The loop that saves the SKUs, over as many products as answers.
unfoldable pub save_skus : List Product → List (Option String) → List Product
unfolding set_sku
save_skus [] skus = []
save_skus (product ∷ products) [] = product ∷ products
save_skus (product ∷ products) (none ∷ skus) = product ∷ save_skus products skus
save_skus (product ∷ products) (some sku ∷ skus) =
    (if sku == "" then product else set_sku sku product) ∷ save_skus products skus

-- False, an exception, or True with the products as they are saved.
pub data Outcome : Type 0 where
  not_sent raised : Outcome
  sent : List Product → Outcome

-- From the request on.
unfoldable pub send_products :
    List Product → (List SentProduct → Answer) → Result (List SentProduct) → Outcome
unfolding save_skus
send_products products post (ok serialized) =
    if is_empty serialized
    then not_sent
    else if leb 400 (post serialized).status_code && ltb (post serialized).status_code 600
    then raised
    else if nat_beq (length products) (length (post serialized).products)
    then sent (save_skus products (post serialized).products)
    else sent products
send_products products post validation_error = raised
send_products products post type_error = raised
send_products products post overflow_error = raised
send_products products post multiple_objects_returned = raised

-- `available`: the partner has an API client and an address for ecommerce.
unfoldable pub push_to_ecommerce_for_course_run :
    (available : Bool)
    → (days : ℕ) → (end : Option ℕ) → (post : List SentProduct → Answer) → List Track
    → List (Seat × Option Seat)
    → List (Entitlement × Option Entitlement)
    → Outcome
unfolding discovery_products serialize_products send_products
push_to_ecommerce_for_course_run available days end post tracks seats entitlements =
    let products = discovery_products tracks seats entitlements in
    if not available
    then not_sent
    else send_products products post (serialize_products days end products)
