-- ===== src/Examples/Services.antt =====
-- Examples for what is sent to other services, and for the pages of a loader.
use course_discovery_ed_uhk.Base.{
  String, ◌≡◌, ℕ, refl, true, Option, none, some, List, [], ◌∷◌, All, map,
}
use course_discovery_ed_uhk.Run.{Seat, verified}
use course_discovery_ed_uhk.Course.Entitlement.{Entitlement}
use course_discovery_ed_uhk.Services.{Mode, Track}
use course_discovery_ed_uhk.Services.Ecommerce.{
  Product, Answer, SentProduct, sent, discovery_products, seats_with_modes, mode_of,
  serialize_products, serialize_product, calculated_seat_upgrade_deadline, send_products, save_skus,
  push_to_ecommerce_for_course_run,
}
use course_discovery_ed_uhk.Services.Ecommerce.Skus.{IsAgreed, bare, push_to_ecommerce_agrees}
use course_discovery_ed_uhk.Examples.Data.{at_day, audit_seat, verified_seat}

abbrev mode : String → Mode
mode slug = record { slug = slug; name = slug; certificate_type = ""; is_id_verified = true }

-- A verified track with its seat, and a track for which nothing is sold.
abbrev tracks : List Track
tracks =
    record { seat_type = some verified; mode = mode verified }
    ∷ record { seat_type = none; mode = mode "masters" }
    ∷ []

abbrev entitlement : Entitlement
entitlement = record {
  id = 5;
  mode = verified;
  price = 4900;
  currency = "USD";
  sku = none;
  draft_version = some 6;
}

abbrev seats : List (Seat × Option Seat)
seats = (audit_seat, none) ∷ (verified_seat, some verified_seat) ∷ []

abbrev entitlements : List (Entitlement × Option Entitlement)
entitlements = (entitlement, some (record entitlement { id = 6; draft_version = none })) ∷ []

abbrev post : List SentProduct → Answer
post products = record { status_code = 200; products = some "AAA" ∷ some "BBB" ∷ [] }

abbrev products : List Product
products = save_skus (discovery_products tracks seats entitlements) (some "AAA" ∷ some "BBB" ∷ [])

pushed :
    push_to_ecommerce_for_course_run true 10 (some (at_day 200)) post tracks seats entitlements
    ≡ sent products
unfolding push_to_ecommerce_for_course_run send_products serialize_products serialize_product
    calculated_seat_upgrade_deadline discovery_products seats_with_modes mode_of
pushed = refl

agreed : All IsAgreed (discovery_products tracks seats entitlements)
unfolding discovery_products seats_with_modes mode_of
agreed = (refl, (refl, tt))

push_to_ecommerce_agrees_example :
    All IsAgreed products
    × (map bare products ≡ map bare (discovery_products tracks seats entitlements))
push_to_ecommerce_agrees_example =
    push_to_ecommerce_agrees true 10 (some (at_day 200)) post tracks seats entitlements products
      pushed agreed

abbrev page : ℕ
page = 3
