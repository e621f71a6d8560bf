-- ===== src/Course/Types/Runs.antt =====
-- The match of the runs of a course with the run types of a course type.
use course_discovery_ed_uhk.Base.{
  ℕ, ◌≡◌, refl, sym, ap, subst, ◌∙◌, Bool, true, false, none, some, List, [], ◌∷◌, arith, nat_beq,
  nat_beq_iff, keep, first, Bool-cases, Option-cases, inl, inr,
}
use course_discovery_ed_uhk.Course.Types.{
  Types, TypedRun, mem, is_matching_run_type, match_run, match_runs,
}

first-keep :
    (p : ℕ → Bool) (xs : List ℕ) (x : ℕ)
    → first (keep p xs) ≡ some x
    → (p x ≡ true) × (mem x xs ≡ true)
first-keep p [] x h = cc
first-keep p (y ∷ xs) x h = elim (Bool-cases (p y)) [
  | inl e ↦
      let same : y ≡ x = cc (rw e at h) in
      (ap p (sym same) ∙ e, rw ((nat_beq_iff x y).1 (sym same)) refl)
  | inr e ↦ let (f, m) = first-keep p xs x (rw e at h) in (f, ground (arith, m))
]

pub first-keep-none :
    (p : ℕ → Bool) (xs : List ℕ) (x : ℕ) → first (keep p xs) ≡ none → mem x xs ≡ true → p x ≡ false
first-keep-none p [] x h m = cc m
first-keep-none p (y ∷ xs) x h m = elim (Bool-cases (p y)) [
  | inl e ↦ cc (rw e at h)
  | inr e ↦ elim (Bool-cases (nat_beq x y)) [
    | inl s ↦ ap p ((nat_beq_iff x y).0 s) ∙ e
    | inr s ↦ first-keep-none p xs x (rw e at h) (rw s at m)
  ]
]

-- A match changes the type of a run only, and this only where it was empty.
pub record IsMatch (types : Types) (run_types : List ℕ) (run run' : TypedRun) : Type 0 where
  pub seats : run'.seats ≡ run.seats
  pub kept : types.is_empty_run_type run.type ≡ false → run' ≡ run
  pub listed : mem run'.type run_types ≡ true
  pub matching : is_matching_run_type types run run'.type ≡ true

pub match_run-IsMatch :
    (types : Types) (run_types : List ℕ) (run run' : TypedRun)
    → match_run types run_types run ≡ some run'
    → IsMatch types run_types run run'
unfolding match_run
match_run-IsMatch types run_types run run' h =
    elim (Bool-cases (types.is_empty_run_type run.type)) [
      | inl e ↦ elim (Option-cases (first (keep (is_matching_run_type types run) run_types))) [
        | inl f ↦ cc (rw (e, f) at h)
        | inr (t, f) ↦
            let (good, there) = first-keep (is_matching_run_type types run) run_types t f in
            subst (IsMatch types run_types run) (cc (rw (e, f) at h))
              (record { seats = refl; kept = λ k. cc (e, k); listed = there; matching = good })
      ]
      | inr e ↦ elim (Bool-cases (mem run.type run_types)) [
        | inr f ↦ cc (rw (e, f) at h)
        | inl f ↦ elim (Bool-cases (is_matching_run_type types run run.type)) [
          | inr g ↦ cc (rw (e, f, g) at h)
          | inl g ↦
              subst (IsMatch types run_types run) (cc (rw (e, f, g) at h))
                (record { seats = refl; kept = λ _. refl; listed = f; matching = g })
        ]
      ]
    ]

-- The test for a run type reads the seats of the run only.
is_matching_seats :
    (types : Types) (run run' : TypedRun) (t : ℕ)
    → run'.seats ≡ run.seats
    → is_matching_run_type types run' t ≡ is_matching_run_type types run t
unfolding is_matching_run_type
is_matching_seats types run run' t e = rw e refl

-- The first run type that matches is that of the run with the match too.
first-matching :
    (types : Types) (run run' : TypedRun) (run_types : List ℕ)
    → run'.seats ≡ run.seats
    → first (keep (is_matching_run_type types run') run_types)
      ≡ first (keep (is_matching_run_type types run) run_types)
first-matching types run run' [] e = refl
first-matching types run run' (t ∷ ts) e =
    ground (arith, is_matching_seats types run run' t e, first-matching types run run' ts e)

abbrev typed : TypedRun → ℕ → TypedRun
typed run t = record run { type = t }

-- A run whose type is empty has the first run type that matches.
match_run_empty :
    (types : Types) (run_types : List ℕ) (run run' : TypedRun)
    → types.is_empty_run_type run.type ≡ true
    → match_run types run_types run ≡ some run'
    → (t : ℕ) × ((first (keep (is_matching_run_type types run) run_types) ≡ some t)
        × (typed run t ≡ run'))
unfolding match_run
match_run_empty types run_types run run' e h =
    elim (Option-cases (first (keep (is_matching_run_type types run) run_types))) [
      | inl f ↦ cc (rw (e, f) at h)
      | inr (t, f) ↦ (t, (f, cc (rw (e, f) at h)))
    ]

-- A run with its match is matched again, by itself.
pub match_run_again :
    (types : Types) (run_types : List ℕ) (run run' : TypedRun)
    → match_run types run_types run ≡ some run'
    → match_run types run_types run' ≡ some run'
unfolding match_run
match_run_again types run_types run run' h = elim (Bool-cases (types.is_empty_run_type run.type)) [
  | inr e ↦
      let m = match_run-IsMatch types run_types run run' h in
      subst (λ r. match_run types run_types r ≡ some run') (sym (m.kept e)) h
  | inl e ↦
      let (t, (f, q)) = match_run_empty types run_types run run' e h in
      let (good, there) = first-keep (is_matching_run_type types run) run_types t f in
      subst (λ r. match_run types run_types r ≡ some r) q
        (elim (Bool-cases (types.is_empty_run_type t)) [
          | inl g ↦ rw (g, first-matching types run (typed run t) run_types refl, f) refl
          | inr g ↦ rw (g, there, is_matching_seats types run (typed run t) t refl, good) refl
        ])
]

-- Run types that are refused for a run are refused for the run with a match.
pub match_run_refused :
    (types : Types) (run_types others : List ℕ) (run run' : TypedRun)
    → match_run types run_types run ≡ some run'
    → match_run types others run ≡ none
    → match_run types others run' ≡ none
unfolding match_run
match_run_refused types run_types others run run' h n =
    elim (Bool-cases (types.is_empty_run_type run.type)) [
      | inr e ↦
          let m = match_run-IsMatch types run_types run run' h in
          subst (λ r. match_run types others r ≡ none) (sym (m.kept e)) n
      | inl e ↦
          let (t, (f, q)) = match_run_empty types run_types run run' e h in
          let (good, _) = first-keep (is_matching_run_type types run) run_types t f in
          elim (Option-cases (first (keep (is_matching_run_type types run) others))) [
            | inr (u, k) ↦ cc (rw (e, k) at n)
            | inl k ↦
                subst (λ r. match_run types others r ≡ none) q
                  (elim (Bool-cases (types.is_empty_run_type t)) [
                    | inl g ↦ rw (g, first-matching types run (typed run t) others refl, k) refl
                    | inr g ↦ elim (Bool-cases (mem t others)) [
                      | inr l ↦ rw (g, l) refl
                      | inl l ↦
                          cc (good, first-keep-none (is_matching_run_type types run) others t k l)
                    ]
                  ])
          ]
    ]

pub match_runs-cons :
    (types : Types) (run_types : List ℕ) (run : TypedRun) (runs runs' : List TypedRun)
    → match_runs types run_types (run ∷ runs) ≡ some runs'
    → (run' : TypedRun) × ((rest : List TypedRun) × ((match_run types run_types run ≡ some run')
          × ((match_runs types run_types runs ≡ some rest) × (run' ∷ rest ≡ runs'))))
unfolding match_runs
match_runs-cons types run_types run runs runs' h =
    elim (Option-cases (match_run types run_types run)) [
      | inl e ↦ cc (rw (e, match_runs) at h)
      | inr (run', e) ↦ elim (Option-cases (match_runs types run_types runs)) [
        | inl f ↦ cc (rw (e, f, match_runs) at h)
        | inr (rest, f) ↦ (run', (rest, (e, (f, cc (rw (e, f, match_runs) at h)))))
      ]
    ]

-- The same for all runs of a course.
pub match_runs_again :
    (types : Types) (run_types : List ℕ) (runs runs' : List TypedRun)
    → match_runs types run_types runs ≡ some runs'
    → match_runs types run_types runs' ≡ some runs'
unfolding match_runs
match_runs_again types run_types [] runs' h =
    let q : [] ≡ runs' = cc h in subst (λ r. match_runs types run_types r ≡ some r) q refl
match_runs_again types run_types (run ∷ runs) runs' h =
    let (run', (rest, (a, (b, q)))) = match_runs-cons types run_types run runs runs' h in
    subst (λ r. match_runs types run_types r ≡ some r) q
      (rw
        (
          match_run_again types run_types run run' a,
          match_runs_again types run_types runs rest b,
          match_runs,
        )
        refl)

pub match_runs_refused :
    (types : Types) (run_types others : List ℕ) (runs runs' : List TypedRun)
    → match_runs types run_types runs ≡ some runs'
    → match_runs types others runs ≡ none
    → match_runs types others runs' ≡ none
unfolding match_runs
match_runs_refused types run_types others [] runs' h n = cc n
match_runs_refused types run_types others (run ∷ runs) runs' h n =
    let (run', (rest, (a, (b, q)))) = match_runs-cons types run_types run runs runs' h in
    subst (λ r. match_runs types others r ≡ none) q
      (elim (Option-cases (match_run types others run)) [
        | inl e ↦ rw (match_run_refused types run_types others run run' a e, match_runs) refl
        | inr (_, e) ↦ elim (Option-cases (match_runs types others runs)) [
          | inr (_, f) ↦ cc (rw (e, f, match_runs) at n)
          | inl f ↦ elim (Option-cases (match_run types others run')) [
            | inl g ↦ rw (g, match_runs) refl
            | inr (_, g) ↦
                rw (g, match_runs_refused types run_types others runs rest b f, match_runs) refl
          ]
        ]
      ])
