-- ===== src/Services/Ecommerce/Skus.antt =====
-- The SKUs of the products and of their drafts.
use course_discovery_ed_uhk.Base.{
  ℕ, String, ◌≡◌, ◌⊎◌, refl, ap, ap₂, Bool, ◌&&◌, Option, none, some, List, [], ◌∷◌, map, leb, ltb,
  nat_beq, ◌==◌, string_eq, length, is_empty, All, Bool-cases, inl, inr,
}
use course_discovery_ed_uhk.Run.{Seat}
use course_discovery_ed_uhk.Course.Entitlement.{Entitlement}
use course_discovery_ed_uhk.Run.SeatUpdate.{
  Result, ok, validation_error, type_error, overflow_error, multiple_objects_returned,
}
use course_discovery_ed_uhk.Services.{Track}
use course_discovery_ed_uhk.Services.Ecommerce.{
  Product, of_seat, of_entitlement, SentProduct, Answer, map_draft, set_sku, save_skus,
  serialize_products, discovery_products, send_products, sent, push_to_ecommerce_for_course_run,
}

-- A product and its draft version have one SKU.
abbrev pub IsAgreed : Product → Type 0
IsAgreed (of_seat seat none mode) = Unit
IsAgreed (of_seat seat (some draft) mode) = draft.sku ≡ seat.sku
IsAgreed (of_entitlement entitlement none) = Unit
IsAgreed (of_entitlement entitlement (some draft)) = draft.sku ≡ entitlement.sku

abbrev seat_bare : Seat → Seat
seat_bare seat = record seat { sku = none }

abbrev entitlement_bare : Entitlement → Entitlement
entitlement_bare entitlement = record entitlement { sku = none }

-- The product without SKUs.
abbrev pub bare : Product → Product
bare (of_seat seat draft mode) = of_seat (seat_bare seat) (map_draft seat_bare draft) mode
bare (of_entitlement entitlement draft) =
    of_entitlement (entitlement_bare entitlement) (map_draft entitlement_bare draft)

set_sku-IsAgreed : (sku : String) (p : Product) → IsAgreed (set_sku sku p)
unfolding set_sku
set_sku-IsAgreed sku (of_seat seat none mode) = tt
set_sku-IsAgreed sku (of_seat seat (some draft) mode) = refl
set_sku-IsAgreed sku (of_entitlement entitlement none) = tt
set_sku-IsAgreed sku (of_entitlement entitlement (some draft)) = refl

bare-set_sku : (sku : String) (p : Product) → bare (set_sku sku p) ≡ bare p
unfolding set_sku
bare-set_sku sku (of_seat seat none mode) = refl
bare-set_sku sku (of_seat seat (some draft) mode) = refl
bare-set_sku sku (of_entitlement entitlement none) = refl
bare-set_sku sku (of_entitlement entitlement (some draft)) = refl

save_skus-IsAgreed :
    (ps : List Product) (skus : List (Option String))
    → All IsAgreed ps
    → All IsAgreed (save_skus ps skus)
unfolding save_skus
save_skus-IsAgreed [] skus h = tt
save_skus-IsAgreed (p ∷ ps) [] h = h
save_skus-IsAgreed (p ∷ ps) (none ∷ skus) h = (h.0, save_skus-IsAgreed ps skus h.1)
save_skus-IsAgreed (p ∷ ps) (some sku ∷ skus) h = elim (Bool-cases (sku == "")) [
  | inl e ↦ rw e (h.0, save_skus-IsAgreed ps skus h.1)
  | inr e ↦ rw e (set_sku-IsAgreed sku p, save_skus-IsAgreed ps skus h.1)
]

bare-save_skus :
    (ps : List Product) (skus : List (Option String)) → map bare (save_skus ps skus) ≡ map bare ps
unfolding save_skus
bare-save_skus [] skus = refl
bare-save_skus (p ∷ ps) [] = refl
bare-save_skus (p ∷ ps) (none ∷ skus) = ap (λ rest. bare p ∷ rest) (bare-save_skus ps skus)
bare-save_skus (p ∷ ps) (some sku ∷ skus) = elim (Bool-cases (sku == "")) [
  | inl e ↦ rw e (ap (λ rest. bare p ∷ rest) (bare-save_skus ps skus))
  | inr e ↦ rw e (ap₂ (λ q rest. q ∷ rest) (bare-set_sku sku p) (bare-save_skus ps skus))
]

-- What is left is what an answer saves, or nothing.
send_products_cases :
    (ps products : List Product) (post : List SentProduct → Answer) (r : Result (List SentProduct))
    → send_products ps post r ≡ sent products
    → (products ≡ ps) ⊎ ((skus : List (Option String)) × (products ≡ save_skus ps skus))
unfolding send_products
send_products_cases ps products post (ok serialized) h =
    let answer = post serialized in
    elim (Bool-cases (is_empty serialized)) [
      | inl e ↦ cc (rw e at h)
      | inr e ↦ elim (Bool-cases (leb 400 answer.status_code && ltb answer.status_code 600)) [
        | inl f ↦ cc (rw (e, f) at h)
        | inr f ↦ elim (Bool-cases (nat_beq (length ps) (length answer.products))) [
          | inl g ↦ inr (answer.products, cc (rw (e, f, g) at h))
          | inr g ↦ inl (cc (rw (e, f, g) at h))
        ]
      ]
    ]
send_products_cases ps products post validation_error h = cc h
send_products_cases ps products post type_error h = cc h
send_products_cases ps products post overflow_error h = cc h
send_products_cases ps products post multiple_objects_returned h = cc h

-- A push that succeeds changes the products in their SKUs only, and where each product had the SKU
-- of its draft version, it still has.
pub push_to_ecommerce_agrees :
    (available : Bool) (days : ℕ) (end : Option ℕ) (post : List SentProduct → Answer)
    (tracks : List Track) (seats : List (Seat × Option Seat))
    (entitlements : List (Entitlement × Option Entitlement)) (products : List Product)
    → push_to_ecommerce_for_course_run available days end post tracks seats entitlements
      ≡ sent products
    → All IsAgreed (discovery_products tracks seats entitlements)
    → All IsAgreed products
      × (map bare products ≡ map bare (discovery_products tracks seats entitlements))
unfolding push_to_ecommerce_for_course_run
push_to_ecommerce_agrees available days end post tracks seats entitlements products h agreed =
    let ps = discovery_products tracks seats entitlements in
    elim (Bool-cases available) [
      | inr e ↦ cc (rw (e, push_to_ecommerce_for_course_run) at h)
      | inl e ↦
          elim (send_products_cases ps products post (serialize_products days end ps)
            (rw (e, push_to_ecommerce_for_course_run) at h)) [
              | inl same ↦ rw same (agreed, refl)
              | inr (skus, saved) ↦
                  rw saved (save_skus-IsAgreed ps skus agreed, bare-save_skus ps skus)
            ]
    ]
