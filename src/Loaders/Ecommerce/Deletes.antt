-- ===== src/Loaders/Ecommerce/Deletes.antt =====
-- Which entitlements an ingest of the ecommerce loader deletes.
use course_discovery_ed_uhk.Base.{
  ℕ, String, ◌≡◌, ◌⊎◌, Bool, true, false, Option, none, some, List, any,
}
use course_discovery_ed_uhk.Loaders.Ecommerce.{
  Entitlement, Catalog, State, Call, returned, state_of,
}
use course_discovery_ed_uhk.Loaders.Ecommerce.Seats.{same_option}
use course_discovery_ed_uhk.Loaders.Ecommerce.Entitlements.{is_of}
use course_discovery_ed_uhk.Loaders.Ecommerce.Invariants.{HasEntitlement}

module _ (catalog : Catalog) (partner : ℕ) (course : String) (mode : ℕ) where
  abbrev K : State → Type 0
  K = HasEntitlement course mode

-- The SKU is in the list.
abbrev pub is_listed : List (Option String) → Option String → Bool
is_listed skus none = false
is_listed skus (some sku) = any (same_option (some sku)) skus

-- An entitlement of the partner, for the course and the mode, whose SKU is not listed.
abbrev pub IsGone : ℕ → String → ℕ → State → Type 0
IsGone partner course mode s =
    (e : Entitlement) × ((is_of course mode e ≡ true)
      × ((e.partner ≡ partner) × (is_listed s.entitlement_skus e.sku ≡ false)))

abbrev pub IsSafe : ℕ → String → ℕ → Call → Type 0
IsSafe partner course mode c =
    HasEntitlement course mode (state_of c)
    ⊎ ((c ≡ returned (state_of c))
        × ((state_of c).processing_failure_occurred ≡ false)
        × IsGone partner course mode (state_of c))
