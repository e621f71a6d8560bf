-- ===== src/Course/Advertised/Starts.antt =====
-- When `advertised_course_run` returns and when it raises, by which runs have a start.
use course_discovery_ed_uhk.Base.{
  ℕ, ◌≤◌, ◌≡◌, ◌≢◌, refl, Bool, true, false, Option, none, some, List, [], ◌∷◌, arith, sym, ap, ◌∙◌,
  nat_beq, is_some, keep, all, length, mem-keep, keep-mem, All, All-of_mem, first-sorted,
  first-sorted_reverse,
}
use mathlib.Core.List.{Memᴰ}
use course_discovery_ed_uhk.Run.{CourseRun}
use course_discovery_ed_uhk.Run.Market.{is_marketable}
use course_discovery_ed_uhk.Course.Advertised.{
  Outcome, ok, type_error, tiers, start_key, comparable, latest, earliest, choose,
  advertised_course_run,
}
use course_discovery_ed_uhk.Course.Advertised.Choice.{
  rank, tiers_lem, candidates, of_rank, rank-le, no_rank,
}

abbrev pub HasStart : CourseRun → Type 0
HasStart run = is_some run.start ≡ true

comparable_of_All :
    (runs : List CourseRun) → All HasStart runs → all (λ run. is_some run.start) runs ≡ true
comparable_of_All [] h = refl
comparable_of_All (run ∷ runs) h = ground (arith, comparable_of_All runs h.1)

All-keep :
    (p : CourseRun → Bool) (runs : List CourseRun) → All HasStart runs → All HasStart (keep p runs)
All-keep p [] h = tt
All-keep p (run ∷ runs) h = ground (arith, All-keep p runs h.1)

Returns : Outcome (Option CourseRun) → Type 0
Returns o = (run : CourseRun) × (o ≡ ok (some run))

latest_total :
    (run : CourseRun) (runs : List CourseRun)
    → All HasStart (run ∷ runs)
    → Returns (latest (run ∷ runs))
unfolding latest Returns
latest_total run runs h =
    let (m, e, _) = first-sorted_reverse start_key run runs in
    (m, ground (arith, comparable_of_All (run ∷ runs) h))

earliest_total :
    (run : CourseRun) (runs : List CourseRun)
    → All HasStart (run ∷ runs)
    → Returns (earliest (run ∷ runs))
unfolding earliest Returns
earliest_total run runs h =
    let (m, e, _) = first-sorted start_key run runs in
    (m, ground (arith, comparable_of_All (run ∷ runs) h))

choose_total :
    (one two three : List CourseRun)
    → All HasStart one
    → All HasStart two
    → All HasStart three
    → ¬ ((one ≡ []) × (two ≡ []) × (three ≡ []))
    → Returns (choose (record { tier_one = one; tier_two = two; tier_three = three }))
unfolding choose
choose_total (r ∷ one) two three h1 h2 h3 ne = latest_total r one h1
choose_total [] (r ∷ two) three h1 h2 h3 ne = earliest_total r two h2
choose_total [] [] (r ∷ three) h1 h2 h3 ne = latest_total r three h3
choose_total [] [] [] h1 h2 h3 ne = absurd (ne (refl, refl, refl))

-- Some tier holds each candidate.
not_all_empty :
    (now : ℕ) (runs : List CourseRun) (run : CourseRun)
    → Memᴰ run (candidates now runs)
    → ¬ ((of_rank now runs 0 ≡ []) × (of_rank now runs 1 ≡ []) × (of_rank now runs 2 ≡ []))
not_all_empty now runs run m (e0, e1, e2) = omega (
  arith,
  rank-le now runs run,
  no_rank now runs 0 e0 run m,
  no_rank now runs 1 e1 run m,
  no_rank now runs 2 e2 run m,
)

-- Where every marketable run has a start and there is a marketable run, some run is advertised.
pub advertised_course_run_total :
    (now : ℕ) (runs : List CourseRun) (run : CourseRun)
    → Memᴰ run runs
    → is_marketable run ≡ true
    → ((q : CourseRun) → Memᴰ q runs → is_marketable q ≡ true → HasStart q)
    → (best : CourseRun) × (advertised_course_run now runs ≡ ok (some best))
unfolding advertised_course_run Returns
advertised_course_run_total now runs run m good starts =
    let cs = candidates now runs in
    let started =
      All-of_mem HasStart cs (λ q mq. let r = mem-keep is_marketable runs mq in starts q r.0 r.1) in
    let part = λ (k : ℕ). All-keep (λ q. nat_beq (rank now q) k) cs started in
    let (one, two, three) = tiers_lem now cs in
    rw (← one, ← two, ← three) at
      (choose_total (of_rank now runs 0) (of_rank now runs 1) (of_rank now runs 2) (part 0) (part 1)
        (part 2) (not_all_empty now runs run (keep-mem is_marketable runs m good)))

length_pos : (a : CourseRun) (runs : List CourseRun) → Memᴰ a runs → 1 ≤ length runs
length_pos a [] m = elim m [ ]
length_pos a (r ∷ runs) m = omega arith

two_members :
    (a b : CourseRun) (runs : List CourseRun) → a ≢ b → Memᴰ a runs → Memᴰ b runs → 2 ≤ length runs
two_members a b [] ne ma mb = elim ma [ ]
two_members a b (r ∷ runs) ne (Memᴰ.head e) (Memᴰ.head e') = absurd (ne (e ∙ sym e'))
two_members a b (r ∷ runs) ne (Memᴰ.head e) (Memᴰ.tail mb) = omega (arith, length_pos b runs mb)
two_members a b (r ∷ runs) ne (Memᴰ.tail ma) (Memᴰ.head e') = omega (arith, length_pos a runs ma)
two_members a b (r ∷ runs) ne (Memᴰ.tail ma) (Memᴰ.tail mb) =
    omega (arith, two_members a b runs ne ma mb)

missing :
    (a : CourseRun) (runs : List CourseRun)
    → Memᴰ a runs
    → a.start ≡ none
    → all (λ run. is_some run.start) runs ≡ false
missing a [] m e = elim m [ ]
missing a (r ∷ runs) (Memᴰ.head q) e = rw (ap (λ x. x.start) (sym q) ∙ e)
missing a (r ∷ runs) (Memᴰ.tail m) e = ground (arith, missing a runs m e)

-- Two marketable runs that one can enroll in and pay for now, one of them without a start, make
-- the code compare None with a date, so that it raises.
pub advertised_course_run_raises :
    (now : ℕ) (runs : List CourseRun) (a b : CourseRun)
    → a ≢ b
    → Memᴰ a runs
    → Memᴰ b runs
    → is_marketable a ≡ true
    → is_marketable b ≡ true
    → rank now a ≡ 0
    → rank now b ≡ 0
    → a.start ≡ none
    → advertised_course_run now runs ≡ type_error
unfolding advertised_course_run choose latest comparable
advertised_course_run_raises now runs a b ne ma mb ga gb ra rb e =
    let one = (tiers_lem now (candidates now runs)).0 in
    let ia =
      keep-mem (λ q. nat_beq (rank now q) 0) (candidates now runs)
        (keep-mem is_marketable runs ma ga) (ground arith) in
    let ib =
      keep-mem (λ q. nat_beq (rank now q) 0) (candidates now runs)
        (keep-mem is_marketable runs mb gb) (ground arith) in
    raises (tiers now (candidates now runs)).tier_one (rw (← one) at ia) (rw (← one) at ib)
  where
    raises :
        (tier : List CourseRun)
        → Memᴰ a tier
        → Memᴰ b tier
        → choose (record {
          tier_one = tier;
          tier_two = (tiers now (candidates now runs)).tier_two;
          tier_three = (tiers now (candidates now runs)).tier_three;
        })
          ≡ type_error
    raises [] m m' = elim m [ ]
    raises (r ∷ tier) m m' =
        ground (arith, two_members a b (r ∷ tier) ne m m', missing a (r ∷ tier) m e)
