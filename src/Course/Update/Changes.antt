-- ===== src/Course/Update/Changes.antt =====
-- What an update of the entitlements of a course changes, and what it says that it changed.
use course_discovery_ed_uhk.Base.{
  ℕ, ◌%◌, String, ◌≡◌, ◌≢◌, ◌⊎◌, refl, sym, subst, ◌∙◌, ap, Bool, true, false, ◌||◌, Option, none,
  some, List, [], ◌∷◌, arith, string_eq, eq_iff, Bool-cases, Option-cases, inl, inr,
}
use course_discovery_ed_uhk.Run.{audit, verified}
use course_discovery_ed_uhk.Run.SeatUpdate.{price_of}
use course_discovery_ed_uhk.Course.Entitlement.{Entitlement}
use course_discovery_ed_uhk.Course.Update.{
  Result, ok, validation_error, existing_slug, is_switch_refused, update_entitlement,
  update_entitlements, exclude_orphan, update_course_entitlements,
}

-- From one mode to another: the same, or the upgrade.
abbrev pub IsSwitch : String → String → Type 0
IsSwitch old mode = (mode ≡ old) ⊎ ((old ≡ audit) × (mode ≡ verified))

IsSwitch-allowed : (old slug : String) → is_switch_refused true old slug ≡ false → IsSwitch old slug
IsSwitch-allowed old slug h =
    ground (arith, eq_iff old slug, eq_iff old audit, eq_iff slug verified)

IsSwitch-trans : (a b c : String) → IsSwitch a b → IsSwitch b c → IsSwitch a c
IsSwitch-trans a b c (inl e) (inl f) = inl (f ∙ e)
IsSwitch-trans a b c (inl e) (inr (f, g)) = inr (sym e ∙ f, g)
IsSwitch-trans a b c (inr (e, f)) (inl g) = inr (e, g ∙ f)
IsSwitch-trans a b c (inr (e, f)) (inr (g, k)) = inr (e, k)

result_same :
    {a b : Option Entitlement} {m n : ℕ} {p q : Bool}
    → ◌≡◌ {A = Result (Option Entitlement × ℕ × Bool)} (ok (a, m, p)) (ok (b, n, q))
    → b ≡ a
result_same h = cc h

Result-cases {ℓ} : {A : Type ℓ} (r : Result A) → (r ≡ validation_error) ⊎ ((a : A) × (r ≡ ok a))
Result-cases (ok a) = inr (a, refl)
Result-cases validation_error = inl refl

kept :
    (types : List String) (made : Option Entitlement) (entitlement : Entitlement)
    → some entitlement ≡ exclude_orphan types made
    → made ≡ some entitlement
kept types none entitlement h = cc h
kept types (some made) entitlement h = ground arith

written :
    (has_official partial : Bool) (slug : String) (price : ℕ) (existing : Option Entitlement)
    (entitlement : Entitlement) (next next' : ℕ) (changed : Bool)
    → update_entitlement has_official partial slug price existing next
      ≡ ok (entitlement, next', changed)
    → (entitlement.mode ≡ slug)
      × (is_switch_refused has_official (existing_slug existing) slug ≡ false)
unfolding update_entitlement
written has_official partial slug price none entitlement next next' changed h = ground arith
written has_official partial slug price (some existing) entitlement next next' changed h =
    ground arith

update_entitlement-IsSwitch :
    (partial : Bool) (slug : String) (price : ℕ) (existing : Option Entitlement)
    (entitlement : Entitlement) (next next' : ℕ) (changed : Bool)
    → update_entitlement true partial slug price existing next ≡ ok (entitlement, next', changed)
    → IsSwitch (existing_slug existing) entitlement.mode
update_entitlement-IsSwitch partial slug price existing entitlement next next' changed h =
    let (mode, fine) = written true partial slug price existing entitlement next next' changed h in
    subst (IsSwitch (existing_slug existing)) (sym mode)
      (IsSwitch-allowed (existing_slug existing) slug fine)

update_entitlements-IsSwitch :
    (partial : Bool) (prices : List (String × ℕ)) (types : List String)
    (existing entitlement : Option Entitlement) (next next' : ℕ) (changed changed' : Bool)
    → update_entitlements true partial prices types existing next changed
      ≡ ok (entitlement, next', changed')
    → IsSwitch (existing_slug existing) (existing_slug entitlement)
unfolding update_entitlements
update_entitlements-IsSwitch partial prices [] existing entitlement next next' changed changed' h =
    inl (ap existing_slug (result_same h))
update_entitlements-IsSwitch partial prices (slug ∷ types) existing entitlement next next' changed
      changed' h =
    elim (Option-cases (price_of prices slug)) [
      | inl e ↦
          update_entitlements-IsSwitch partial prices types existing entitlement next next' changed
            changed' (rw (e, update_entitlements) at h)
      | inr (price, e) ↦
          elim (Result-cases (update_entitlement true partial slug price existing next)) [
            | inl f ↦ cc (rw (e, f, update_entitlements) at h)
            | inr ((made, next'', did), f) ↦
                IsSwitch-trans (existing_slug existing) made.mode (existing_slug entitlement)
                  (update_entitlement-IsSwitch partial slug price existing made next next'' did f)
                  (update_entitlements-IsSwitch partial prices types (some made) entitlement next''
                    next' (changed || did) changed' (rw (e, f, update_entitlements) at h))
          ]
    ]

-- Once the course has an official version, an update of its entitlements that succeeds and leaves
-- one keeps its mode, or upgrades it from audit to verified; a course without one counts as audit.
pub update_course_entitlements-IsSwitch :
    (partial given : Bool) (prices : List (String × ℕ)) (types : List String)
    (existing : Option Entitlement) (entitlement : Entitlement) (next next' : ℕ) (changed : Bool)
    → update_course_entitlements true partial given prices types existing next
      ≡ ok (some entitlement, next', changed)
    → IsSwitch (existing_slug existing) entitlement.mode
unfolding update_course_entitlements
update_course_entitlements-IsSwitch partial given prices types existing entitlement next next'
      changed h =
    elim (Bool-cases given) [
      | inr e ↦ inl (ap existing_slug (result_same (rw (e, update_course_entitlements) at h)))
      | inl e ↦
          elim (Result-cases (update_entitlements true partial prices types existing next false)) [
            | inl f ↦ cc (rw (e, f, update_course_entitlements) at h)
            | inr ((made, next'', did), f) ↦
                subst (λ o. IsSwitch (existing_slug existing) (existing_slug o))
                  (kept types made entitlement
                    (result_same (rw (e, f, update_course_entitlements) at h)))
                  (update_entitlements-IsSwitch partial prices types existing made next next'' false
                    did f)
          ]
    ]

-- A partial update to another price that is a number of quarters writes the price, and says that
-- nothing has changed, where the course's type has one entitlement type and the switch is allowed.
pub update_course_entitlements_unnoticed :
    (has_official : Bool) (prices : List (String × ℕ)) (slug : String) (existing : Entitlement)
    (price next : ℕ)
    → price_of prices slug ≡ some price
    → price % 25 ≡ 0
    → existing.price ≢ price
    → is_switch_refused has_official existing.mode slug ≡ false
    → (entitlement : Entitlement) × ((update_course_entitlements has_official true true prices
            (slug ∷ [])
            (some existing)
            next
          ≡ ok (some entitlement, next, false))
        × ((entitlement.price ≡ price) × (entitlement.price ≢ existing.price)))
unfolding update_course_entitlements
update_course_entitlements_unnoticed has_official prices slug existing price next given quarters
      other allowed =
    (
      record existing { mode = slug; price = price },
      (
        rw (given, allowed, update_course_entitlements)
            (rw (quarters, (string_eq.equals_iff slug slug).1 refl) refl),
        (refl, λ e. other (sym e)),
      ),
    )
