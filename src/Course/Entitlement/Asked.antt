-- ===== src/Course/Entitlement/Asked.antt =====
-- The runs that are asked for an entitlement (_calculate_entitlement_for_course in
-- course_discovery/apps/course_metadata/utils.py).
use mathlib.Core.List.{Memᴰ}
use mathlib.Core.List.Memᴰ
use course_discovery_ed_uhk.Base.{
  ℕ, ◌≡◌, ◌≢◌, ◌↔◌, ◌⊎◌, ◌∙◌, refl, sym, ap, true, false, List, [], ◌∷◌, ◌++◌, is_empty, Bool-cases,
  inl, inr, string_eq, keep, mem-keep, keep-mem,
}
use course_discovery_ed_uhk.Run.{CourseRun}
use course_discovery_ed_uhk.Run.Dates.{is_active_course_run, active_course_runs}
use course_discovery_ed_uhk.Course.Entitlement.{last, runs_to_ask}

-- The run is active, or it is the last one and none is active.
abbrev pub IsAsked : ℕ → List CourseRun → CourseRun → Type 0
IsAsked now course_runs run =
    (Memᴰ run course_runs × (is_active_course_run now run ≡ true))
    ⊎ (((init : List CourseRun) × (course_runs ≡ init ++ run ∷ []))
        × ((other : CourseRun) → Memᴰ other course_runs → is_active_course_run now other ≡ false))

pub never_empty : (init : List CourseRun) (run : CourseRun) → init ++ run ∷ [] ≢ []
never_empty [] run e = cc e
never_empty (_ ∷ _) run e = cc e

-- A list with a last element that starts with `r`.
pub split_init :
    (r : CourseRun) (runs : List CourseRun) (run : CourseRun) (init : List CourseRun)
    → r ∷ runs ≡ init ++ run ∷ []
    → (runs ≡ []) × (run ≡ r) ⊎ ((init' : List CourseRun) × (runs ≡ init' ++ run ∷ []))
split_init r runs run [] e = inl (cc e, cc e)
split_init r runs run (i ∷ init) e = inr (init, cc e)

pub only_one :
    (r run : CourseRun) (init : List CourseRun) → r ∷ [] ≡ init ++ run ∷ [] → Memᴰ run (r ∷ [])
only_one r run init e = elim (split_init r [] run init e) [
  | inl (_, same) ↦ Memᴰ.head same
  | inr (init', e') ↦ absurd (never_empty init' run (sym e'))
]

pub none_active :
    (now : ℕ) (runs : List CourseRun)
    → is_empty (keep (is_active_course_run now) runs) ≡ true
    → (other : CourseRun) → Memᴰ other runs
    → is_active_course_run now other ≡ false
none_active now [] e other m = elim m [ ]
none_active now (r ∷ runs) e other m = elim (Bool-cases (is_active_course_run now r)) [
  | inl f ↦ cc (rw f at e)
  | inr f ↦ elim (Memᴰ.cases_cons m) [
    | inl q ↦ ap (is_active_course_run now) q ∙ f
    | inr m' ↦ none_active now runs (rw f at e) other m'
  ]
]

pub refused :
    (now : ℕ) (runs : List CourseRun)
    → ((other : CourseRun) → Memᴰ other runs → is_active_course_run now other ≡ false)
    → is_empty (keep (is_active_course_run now) runs) ≡ true
refused now [] h = refl
refused now (r ∷ runs) h =
    rw (h r (Memᴰ.head refl)) (refused now runs (λ other m. h other (Memᴰ.tail m)))

pub no_runs : (now : ℕ) → is_empty (runs_to_ask now []) ≡ true
unfolding runs_to_ask active_course_runs
no_runs now = refl

pub is_empty-last : (r : CourseRun) (runs : List CourseRun) → is_empty (last (r ∷ runs)) ≡ false
is_empty-last r [] = refl
is_empty-last r (r' ∷ runs) = is_empty-last r' runs

pub runs_left :
    (now : ℕ) (runs : List CourseRun) → runs ≢ [] → is_empty (runs_to_ask now runs) ≡ false
unfolding runs_to_ask active_course_runs
runs_left now [] h = absurd (h refl)
runs_left now (r ∷ runs) h =
    elim (Bool-cases (is_empty (keep (is_active_course_run now) (r ∷ runs)))) [
      | inl e ↦ rw e (is_empty-last r runs)
      | inr e ↦ rw e e
    ]

-- The last run of the list.
pub last_mem :
    (runs : List CourseRun) (run : CourseRun)
    → Memᴰ run (last runs) ↔ ((init : List CourseRun) × (runs ≡ init ++ run ∷ []))
last_mem [] run = (λ m. elim m [ ], λ (init, e). absurd (never_empty init run (sym e)))
last_mem (r ∷ []) run = (
  λ m. elim (Memᴰ.cases_cons m) [
    | inl q ↦ ([], ap (λ x. x ∷ []) (sym q))
    | inr nothing ↦ elim nothing [ ]
  ],
  λ (init, e). only_one r run init e,
)
last_mem (r ∷ r' ∷ runs) run =
    let rest = last_mem (r' ∷ runs) run in
    (
      λ m. let (init, e) = rest.0 m in (r ∷ init, ap (λ xs. r ∷ xs) e),
      λ (init, e). elim (split_init r (r' ∷ runs) run init e) [
        | inl (q, _) ↦ cc q
        | inr (init', e') ↦ rest.1 (init', e')
      ],
    )

pub runs_to_ask_mem :
    (now : ℕ) (course_runs : List CourseRun) (run : CourseRun)
    → Memᴰ run (runs_to_ask now course_runs) ↔ IsAsked now course_runs run
unfolding runs_to_ask active_course_runs
runs_to_ask_mem now course_runs run =
    let active = is_active_course_run now in
    elim (Bool-cases (is_empty (keep active course_runs))) [
      | inl e ↦ (
        λ m. inr ((last_mem course_runs run).0 (rw e at m), none_active now course_runs e),
        λ asked. elim asked [
          | inl (m, a) ↦ cc (none_active now course_runs e run m, a)
          | inr (is_last, _) ↦ rw e ((last_mem course_runs run).1 is_last)
        ],
      )
      | inr e ↦ (
        λ m. inl (mem-keep active course_runs (rw e at m)),
        λ asked. elim asked [
          | inl (m, a) ↦ rw e (keep-mem active course_runs m a)
          | inr (_, none_is) ↦ cc (refused now course_runs none_is, e)
        ],
      )
    ]
