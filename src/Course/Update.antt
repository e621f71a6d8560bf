-- ===== src/Course/Update.antt =====
-- CourseViewSet.update_entitlement, and what CourseViewSet.update_course does to the entitlements of
-- a draft course (course_discovery/apps/api/v1/views/courses.py). A course has one draft entitlement
-- at most (`unique_together` of CourseEntitlement). CourseEntitlementSerializer
-- (course_discovery/apps/api/serializers.py) writes into the row that it is given, and wants `sku`
-- unless the update is partial. A price is a number of cents, and Python compares a Decimal with a
-- float by their exact values.
pub mod Changes
use course_discovery_ed_uhk.Base.{
  ℕ, ◌+◌, ◌%◌, String, Bool, true, false, ◌&&◌, ◌||◌, not, Option, none, some, List, [], ◌∷◌,
  nat_beq, ◌==◌, string_eq, if◌then◌else◌, any, is_some,
}
use course_discovery_ed_uhk.Run.{audit, verified}
use course_discovery_ed_uhk.Run.SeatUpdate.{price_of}
use course_discovery_ed_uhk.Course.Entitlement.{Entitlement}

pub data Result {ℓ} (A : Type ℓ) : Type ℓ where
  ok : A → Result A
  validation_error : Result A

-- `entitlement.mode.slug if entitlement else Seat.AUDIT`
abbrev pub existing_slug : Option Entitlement → String
existing_slug none = audit
existing_slug (some entitlement) = entitlement.mode

-- `entitlement_type_switch_whitelist.get(existing_slug) != entitlement_type.slug`
abbrev pub is_switch_refused : Bool → String → String → Bool
is_switch_refused has_official existing slug =
    has_official && not (existing == slug) && not ((existing == audit) && (slug == verified))

-- `price != float(price)`: a number of cents is a binary fraction of a dollar exactly where it is a
-- number of quarters.
abbrev pub differs_from_float : ℕ → Bool
differs_from_float price = not (nat_beq (price % 25) 0)

-- The entitlement afterwards, the next key, and whether it is said to have changed. When the prices
-- are compared, the serializer has written the new one into the row.
unfoldable pub update_entitlement :
    (has_official partial : Bool)
    → String
    → ℕ
    → Option Entitlement
    → ℕ
    → Result (Entitlement × ℕ × Bool)
update_entitlement has_official partial slug price existing next =
    if is_switch_refused has_official (existing_slug existing) slug
    then validation_error
    else elim existing [
      | some entitlement ↦
          if partial
          then ok
              (record entitlement { mode = slug; price = price }, next, differs_from_float price)
          else validation_error
      | none ↦ ok (
        record {
          id = next;
          mode = slug;
          price = price;
          currency = "USD";
          sku = none;
          draft_version = none;
        },
        next + 1,
        true,
      )
    ]

-- `for entitlement_type in entitlement_types: ...`, with the prices of the request.
unfoldable pub update_entitlements :
    (has_official partial : Bool)
    → List (String × ℕ)
    → List String
    → Option Entitlement
    → ℕ
    → Bool
    → Result (Option Entitlement × ℕ × Bool)
unfolding update_entitlement
update_entitlements has_official partial prices [] existing next changed =
    ok (existing, next, changed)
update_entitlements has_official partial prices (slug ∷ types) existing next changed =
    elim (price_of prices slug) [
      | none ↦ update_entitlements has_official partial prices types existing next changed
      | some price ↦ elim (update_entitlement has_official partial slug price existing next) [
        | validation_error ↦ validation_error
        | ok (entitlement, next', did_change) ↦
            update_entitlements has_official partial prices types (some entitlement) next'
              (changed || did_change)
      ]
    ]

-- `course.entitlements.exclude(mode__in=entitlement_types).delete()`
abbrev pub exclude_orphan : List String → Option Entitlement → Option Entitlement
exclude_orphan types none = none
exclude_orphan types (some entitlement) =
    if any (λ t. t == entitlement.mode) types then some entitlement else none

-- `entitlement_types` are those of the type that the request gives, or of the course's own; the
-- block is skipped where the request gives neither a type nor prices.
unfoldable pub update_course_entitlements :
    (has_official partial given : Bool)
    → List (String × ℕ)
    → List String
    → Option Entitlement
    → ℕ
    → Result (Option Entitlement × ℕ × Bool)
unfolding update_entitlements
update_course_entitlements has_official partial given prices types existing next =
    if not given
    then ok (existing, next, false)
    else elim (update_entitlements has_official partial prices types existing next false) [
      | validation_error ↦ validation_error
      | ok (entitlement, next', changed) ↦ ok (exclude_orphan types entitlement, next', changed)
    ]
