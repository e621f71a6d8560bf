-- ===== src/Loaders/Ecommerce/SeatRows.antt =====
-- What update_or_create on the seats of a run writes, and what it leaves as it is.
use course_discovery_ed_uhk.Base.{
  String, ◌≡◌, ◌⊎◌, refl, subst, ap, ◌∙◌, Bool, true, not, Option, none, some, List, [], ◌∷◌, ◌++◌,
  map, arith, if◌then◌else◌, keep, is_empty, Bool-cases, List-cases, inl, inr, eq_iff,
}
use course_discovery_ed_uhk.Loaders.Ecommerce.{Seat}
use course_discovery_ed_uhk.Loaders.Ecommerce.Seats.{is_same_seat, same_option, update_or_create}

module _ (m : Seat → Bool) (g : Seat → Seat) (kept : (seat : Seat) → m (g seat) ≡ true) where
  abbrev replace : List Seat → List Seat
  replace seats = map (λ seat. if m seat then g seat else seat) seats

  keep-replace : (seats : List Seat) → keep m (replace seats) ≡ map g (keep m seats)
  keep-replace [] = refl
  keep-replace (seat ∷ seats) =
      let again = keep-replace seats in
      let fine = kept seat in
      elim (Bool-cases (m seat)) [
        | inl e ↦ rw (e, fine, again) refl
        | inr e ↦ rw (e, again) (rw e refl)
      ]

  keep-replace_others :
      (seats : List Seat) → keep (λ s. not (m s)) (replace seats) ≡ keep (λ s. not (m s)) seats
  keep-replace_others [] = refl
  keep-replace_others (seat ∷ seats) =
      let again = keep-replace_others seats in
      let fine = kept seat in
      elim (Bool-cases (m seat)) [ inl e ↦ rw (e, fine) again | inr e ↦ rw e (rw (e, again) refl) ]

keep-append : (p : Seat → Bool) (xs ys : List Seat) → keep p (xs ++ ys) ≡ keep p xs ++ keep p ys
keep-append p [] ys = refl
keep-append p (x ∷ xs) ys = let again = keep-append p xs ys in ground (arith, again)

append-nil : (xs : List Seat) → xs ++ [] ≡ xs
append-nil [] = refl
append-nil (x ∷ xs) = ap (λ r. x ∷ r) (append-nil xs)

same_option_self : (o : Option String) → same_option o o ≡ true
same_option_self none = refl
same_option_self (some s) = (eq_iff s s).1 refl

is_same_seat_self :
    (seat : Seat) → is_same_seat seat.type seat.credit_provider seat.currency seat ≡ true
is_same_seat_self seat =
    rw
      (
        (eq_iff seat.type seat.type).1 refl,
        same_option_self seat.credit_provider,
        (eq_iff seat.currency seat.currency).1 refl,
      )
      refl

-- The one seat of the type, the provider and the currency, and the other seats.
abbrev pub IsWritten : Seat → List Seat → List Seat → Type 0
IsWritten new seats seats' =
    let is_match = is_same_seat new.type new.credit_provider new.currency in
    (((keep is_match seats ≡ []) × (keep is_match seats' ≡ new ∷ []))
      ⊎ ((seat : Seat) × ((keep is_match seats ≡ seat ∷ [])
            × (keep is_match seats' ≡ (record new { bulk_sku = seat.bulk_sku }) ∷ []))))
    × (keep (λ s. not (is_match s)) seats' ≡ keep (λ s. not (is_match s)) seats)

append-IsWritten :
    (new : Seat) (seats : List Seat)
    → keep (is_same_seat new.type new.credit_provider new.currency) seats ≡ []
    → IsWritten new seats (seats ++ new ∷ [])
append-IsWritten new seats e =
    let is_match = is_same_seat new.type new.credit_provider new.currency in
    let own = is_same_seat_self new in
    (
      inl (e, rw (keep-append is_match seats (new ∷ []), e, own) refl),
      rw (keep-append (λ s. not (is_match s)) seats (new ∷ []), own) (append-nil _),
    )

replace-IsWritten :
    (new seat : Seat) (seats : List Seat)
    → keep (is_same_seat new.type new.credit_provider new.currency) seats ≡ seat ∷ []
    → IsWritten new seats (
        replace
          (is_same_seat new.type new.credit_provider new.currency)
          (λ s. record new { bulk_sku = s.bulk_sku })
          (λ s. is_same_seat_self new)
          seats)
replace-IsWritten new seat seats e =
    let is_match = is_same_seat new.type new.credit_provider new.currency in
    let with_fields : Seat → Seat = λ s. record new { bulk_sku = s.bulk_sku } in
    (
      inr (
        seat,
        (
          e,
          keep-replace is_match with_fields (λ s. is_same_seat_self new) seats
              ∙ ap (map with_fields) e,
        ),
      ),
      keep-replace_others is_match with_fields (λ s. is_same_seat_self new) seats,
    )

empty_lem : (seats : List Seat) → is_empty seats ≡ true → seats ≡ []
empty_lem [] h = refl
empty_lem (seat ∷ seats) h = cc h

-- After an update_or_create that does not raise, there is one seat of the type, the credit provider
-- and the currency. It has the fields that were given, and the bulk SKU of the seat that was there,
-- if there was one. The other seats are as before.
pub update_or_create_lem :
    (new : Seat) (seats seats' : List Seat)
    → update_or_create new seats ≡ some seats'
    → IsWritten new seats seats'
unfolding update_or_create
update_or_create_lem new seats seats' h =
    elim (List-cases (keep (is_same_seat new.type new.credit_provider new.currency) seats)) [
      | inl e ↦
          subst (IsWritten new seats) (cc (rw (e, update_or_create) at h))
            (append-IsWritten new seats e)
      | inr (seat, (others, e)) ↦ elim (Bool-cases (is_empty others)) [
        | inr f ↦ cc (rw f at (rw (e, update_or_create) at h))
        | inl f ↦
            subst (IsWritten new seats) (cc (rw f at (rw (e, update_or_create) at h)))
              (replace-IsWritten new seat seats (e ∙ ap (λ r. seat ∷ r) (empty_lem others f)))
      ]
    ]
