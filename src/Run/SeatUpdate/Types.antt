-- ===== src/Run/SeatUpdate/Types.antt =====
-- What the seats of a draft run are after an update.
use course_discovery_ed_uhk.Base.{
  ℕ, zero, suc, String, ◌≡◌, ◌⊎◌, inl, inr, refl, Bool, true, ◌&&◌, ◌||◌, Option, none, some, List,
  [], ◌∷◌, ◌++◌, arith, map, ◌==◌, string_eq, eq_iff, if◌then◌else◌, any, all, keep, length,
  Bool-cases, ap,
}
use course_discovery_ed_uhk.Run.{Seat, audit, verified}
use course_discovery_ed_uhk.Run.SeatUpdate.{
  Result, ok, ◌>>=◌, has, of_type, seat_types, validate_seat_upgrade, get_seat_upgrade_deadline,
  price_of, write_seat, with_defaults, new_seat, update_or_create_seat_helper, update_seats,
  update_or_create_seats,
}

bind_ok :
    {A B : Type 0} (step : Result A) (next : A → Result B) {out : B}
    → (step >>= next) ≡ ok out
    → (value : A) × (step ≡ ok value) × (next value ≡ ok out)
bind_ok (ok a) f e = (a, refl, e)
bind_ok _ f e = cc

any-append_seat :
    (p : Seat → Bool) (seats : List Seat) (s : Seat)
    → any p (seats ++ s ∷ []) ≡ (any p seats || p s)
any-append_seat p [] s = ground arith
any-append_seat p (x ∷ seats) s = ground (arith, any-append_seat p seats s)

-- Writing a seat changes no seat's type.
any-write :
    (deadline price : Option ℕ) (slug t : String) (seats : List Seat)
    → any
        (of_type t)
        (map (λ s. if of_type slug s then with_defaults deadline price s else s) seats)
      ≡ any (of_type t) seats
any-write deadline price slug t [] = refl
any-write deadline none slug t (s ∷ seats) = ground (arith, any-write deadline none slug t seats)
any-write deadline (some p) slug t (s ∷ seats) =
    ground (arith, any-write deadline (some p) slug t seats)

any_of_count :
    (t : String) (seats : List Seat)
    → length (keep (of_type t) seats) ≡ 1
    → any (of_type t) seats ≡ true
any_of_count t [] h = absurd (omega arith)
any_of_count t (s ∷ seats) h = ground (arith, any_of_count t seats)

write_seat_types :
    (n next : ℕ) (deadline price : Option ℕ) (slug t : String) (seats seats' : List Seat)
    (next' : ℕ)
    → length (keep (of_type slug) seats) ≡ n
    → write_seat n next deadline price slug seats ≡ ok (seats', next')
    → any (of_type t) seats' ≡ (any (of_type t) seats || (slug == t))
unfolding write_seat
write_seat_types zero next deadline none slug t seats seats' next' h e =
    ground
      (arith, any-append_seat (of_type t) seats (with_defaults deadline none (new_seat next slug)))
write_seat_types zero next deadline (some p) slug t seats seats' next' h e = ground (
  arith,
  any-append_seat (of_type t) seats (with_defaults deadline (some p) (new_seat next slug)),
)
write_seat_types (suc zero) next deadline price slug t seats seats' next' h e =
    ground (arith, eq_iff slug t, any-write deadline price slug t seats, any_of_count slug seats)
write_seat_types (suc (suc n)) next deadline price slug t seats seats' next' h e = cc

module _ (days : ℕ) (end : Option ℕ) (prices : List (String × ℕ)) where
  helper_types :
      (next : ℕ) (slug t : String) (seats seats' : List Seat) (next' : ℕ)
      → update_or_create_seat_helper days end prices next slug seats ≡ ok (seats', next')
      → any (of_type t) seats' ≡ (any (of_type t) seats || (slug == t))
  unfolding update_or_create_seat_helper
  helper_types next slug t seats seats' next' e =
      let (deadline, found, written) =
        bind_ok (get_seat_upgrade_deadline days end slug seats) _ e in
      write_seat_types (length (keep (of_type slug) seats)) next deadline (price_of prices slug)
        slug t seats seats' next' refl written

  update_seats_types :
      (next : ℕ) (types : List String) (t : String) (seats seats' : List Seat) (next' : ℕ)
      → update_seats days end prices next types seats ≡ ok (seats', next')
      → any (of_type t) seats' ≡ (any (of_type t) seats || has types t)
  unfolding update_seats
  update_seats_types next [] t seats seats' next' e = ground arith
  update_seats_types next (slug ∷ types) t seats seats' next' e =
      let (w, one, rest) =
        bind_ok (update_or_create_seat_helper days end prices next slug seats) _ e in
      ground (
        arith,
        helper_types next slug t seats w.0 w.1 one,
        update_seats_types w.1 types t w.0 seats' next' rest,
      )

any-keep_types :
    (types : List String) (t : String) (seats : List Seat)
    → any (of_type t) (keep (λ s. has types s.type) seats) ≡ (any (of_type t) seats && has types t)
any-keep_types types t [] = refl
any-keep_types types t (s ∷ seats) = elim (Bool-cases (s.type == t)) [
  | inl e ↦
      let same = (eq_iff s.type t).0 e in
      ground (arith, any-keep_types types t seats, ap (has types) same)
  | inr e ↦ ground (arith, any-keep_types types t seats)
]

-- After an update that succeeds the draft has seats of exactly the types of the tracks.
pub update_or_create_seats-types :
    (days : ℕ) (end : Option ℕ) (official : Option (List String)) (tracks : List (Option String))
    (prices : List (String × ℕ)) (next : ℕ) (seats seats' : List Seat) (next' : ℕ)
    → update_or_create_seats days end official tracks prices next seats ≡ ok (seats', next')
    → (t : String) → any (of_type t) seats' ≡ has (seat_types tracks) t
unfolding update_or_create_seats
update_or_create_seats-types days end official tracks prices next seats seats' next' e t =
    let types = seat_types tracks in
    let (_, valid, updated) = bind_ok (validate_seat_upgrade official types) _ e in
    let (w, made, kept) = bind_ok (update_seats days end prices next types seats) _ updated in
    ground (
      arith,
      update_seats_types days end prices next types t seats w.0 w.1 made,
      any-keep_types types t w.0,
    )

validated :
    (old types : List String) (t : String)
    → all (λ slug. has (if has types verified then audit ∷ types else types) slug) old ≡ true
    → has old t ≡ true
    → (has types t ≡ true) ⊎ ((has types verified ≡ true) × (t ≡ audit))
validated [] types t a h = cc
validated (o ∷ old) types t a h =
    ground (arith, eq_iff o t, eq_iff audit o, eq_iff audit t, validated old types t)

-- Where an official version exists, an update that succeeds keeps each of its seat types in the
-- draft, but for audit beside verified.
pub update_or_create_seats-upgrade :
    (days : ℕ) (end : Option ℕ) (old : List String) (tracks : List (Option String))
    (prices : List (String × ℕ)) (next : ℕ) (seats seats' : List Seat) (next' : ℕ) (t : String)
    → update_or_create_seats days end (some old) tracks prices next seats ≡ ok (seats', next')
    → has old t ≡ true
    → (any (of_type t) seats' ≡ true) ⊎ ((any (of_type verified) seats' ≡ true) × (t ≡ audit))
unfolding update_or_create_seats validate_seat_upgrade
update_or_create_seats-upgrade days end old tracks prices next seats seats' next' t e h =
    let types = seat_types tracks in
    let kinds =
      update_or_create_seats-types days end (some old) tracks prices next seats seats' next' e in
    let (_, valid, updated) = bind_ok (validate_seat_upgrade (some old) types) _ e in
    ground (arith, kinds t, kinds verified, validated old types t)
