-- ===== src/Examples/Drafts.antt =====
-- Examples for the draft world of a course, for its entitlements and for updates of these.
use course_discovery_ed_uhk.Base.{
  ◌≡◌, ◌≢◌, ◌↔◌, refl, true, false, none, some, [], ◌∷◌, arith, All, map,
}
use course_discovery_ed_uhk.Run.{audit, verified}
use course_discovery_ed_uhk.Course.Entitlement.{
  Entitlement, Terms, calculate_entitlement_for_course,
}
use course_discovery_ed_uhk.Course.Entitlement.Agreement.{
  AllOffer, calculate_entitlement_for_course_iff,
}
use course_discovery_ed_uhk.Course.Drafts.{Course, World, official_runs, ensure_draft_world}
use course_discovery_ed_uhk.Course.Drafts.RoundTrip.{
  IsPaired, unlinked, ensure_draft_world_roundtrip,
}
use course_discovery_ed_uhk.Course.Update.{
  ok, update_course_entitlements, update_entitlement, update_entitlements,
}
use course_discovery_ed_uhk.Course.Update.Changes.{
  IsSwitch, update_course_entitlements-IsSwitch, update_course_entitlements_unnoticed,
}
use course_discovery_ed_uhk.Examples.Data.{now, open_run, ended_run}

abbrev terms : Terms
terms = record { mode = verified; price = 4900; currency = "USD" }

calculate_entitlement_for_course_iff_example :
    (calculate_entitlement_for_course now (ended_run ∷ open_run ∷ []) ≡ some terms)
    ↔ AllOffer now (ended_run ∷ open_run ∷ []) terms
calculate_entitlement_for_course_iff_example =
    calculate_entitlement_for_course_iff now (ended_run ∷ open_run ∷ []) terms

abbrev course : Course
course = record {
  id = 1;
  draft = false;
  canonical_course_run = some 10;
  editors = 7 ∷ [];
  url_slug_history = "demo" ∷ [];
  entitlements = [];
}

abbrev world : World
world = record {
  official = course;
  draft = none;
  runs =
      record { run = open_run; draft_version = none }
      ∷ record { run = ended_run; draft_version = none }
      ∷ [];
  next = 30;
}

ensure_draft_world_roundtrip_example :
    All IsPaired (ensure_draft_world now world).runs
    × (map (λ row. unlinked row.run) (ensure_draft_world now world).runs
        ≡ map unlinked (official_runs world.runs))
ensure_draft_world_roundtrip_example =
    ensure_draft_world_roundtrip now world refl (refl, (refl, tt))

abbrev entitlement : Entitlement
entitlement = record {
  id = 5;
  mode = audit;
  price = 4900;
  currency = "USD";
  sku = some "ABC";
  draft_version = none;
}

-- The update to a verified entitlement at 100 dollars is not noticed.
abbrev upgraded : Entitlement
upgraded = record entitlement { mode = verified; price = 10000 }

upgrades :
    update_course_entitlements true true true
      ((verified, 10000) ∷ [])
      (verified ∷ [])
      (some entitlement)
      6
    ≡ ok (some upgraded, 6, false)
unfolding update_course_entitlements update_entitlements update_entitlement
upgrades = refl

update_course_entitlements-IsSwitch_example : IsSwitch audit verified
update_course_entitlements-IsSwitch_example =
    update_course_entitlements-IsSwitch true true ((verified, 10000) ∷ []) (verified ∷ [])
      (some entitlement) upgraded 6 6 false upgrades

update_course_entitlements_unnoticed_example :
    (made : Entitlement) × ((update_course_entitlements true true true
          ((verified, 10000) ∷ [])
          (verified ∷ [])
          (some entitlement)
          6
        ≡ ok (some made, 6, false))
      × ((made.price ≡ 10000) × (made.price ≢ entitlement.price)))
update_course_entitlements_unnoticed_example =
    update_course_entitlements_unnoticed true ((verified, 10000) ∷ []) verified entitlement 10000 6
      refl refl (λ e. omega (arith, e)) refl
