-- ===== src/Course/Advertised/Choice.antt =====
-- Which run is advertised.
use course_discovery_ed_uhk.Base.{
  ℕ, ◌<◌, ◌≤◌, ◌≡◌, ◌≢◌, ◌⊎◌, inl, inr, refl, true, ◌&&◌, not, some, List, [], ◌∷◌, arith, nat_beq,
  if◌then◌else◌, keep, first, mem-keep, keep-mem, subst, first-sorted_nil, first-sorted_reverse_nil,
  IsMin, IsMax, first-sorted, first-sorted_reverse, All-mem,
}
use mathlib.Core.List.{Memᴰ}
use native.Mathlib.Decide.{ℕ_discrete}
use course_discovery_ed_uhk.Run.{CourseRun}
use course_discovery_ed_uhk.Run.Seats.{is_current_and_still_upgradeable, is_upgradeable}
use course_discovery_ed_uhk.Run.Market.{is_marketable}
use course_discovery_ed_uhk.Course.Advertised.{
  ok, tiers, has_started, start_key, latest, earliest, choose, advertised_course_run,
}

-- The tier of one run: 0 for runs to enroll in now, 1 for those to come, 2 for the rest.
unfoldable pub rank : ℕ → CourseRun → ℕ
rank now run =
    if is_current_and_still_upgradeable now run
    then 0
    else if not (has_started now run) && is_upgradeable now run
    then 1
    else 2

-- Each tier is the sublist of its rank.
pub tiers_lem :
    (now : ℕ) (runs : List CourseRun)
    → ((tiers now runs).tier_one ≡ keep (λ run. nat_beq (rank now run) 0) runs)
      × ((tiers now runs).tier_two ≡ keep (λ run. nat_beq (rank now run) 1) runs)
      × ((tiers now runs).tier_three ≡ keep (λ run. nat_beq (rank now run) 2) runs)
unfolding tiers rank
tiers_lem now [] = (refl, refl, refl)
tiers_lem now (run ∷ runs) = let h = tiers_lem now runs in ground arith

latest_lem :
    (runs : List CourseRun) (run : CourseRun)
    → latest runs ≡ ok (some run)
    → IsMax start_key run runs
unfolding latest
latest_lem [] run e = ground (arith, first-sorted_reverse_nil start_key)
latest_lem (r ∷ runs) run e =
    let (m, first, most) = first-sorted_reverse start_key r runs in
    subst (λ x. IsMax start_key x (r ∷ runs)) (ground arith) most

earliest_lem :
    (runs : List CourseRun) (run : CourseRun)
    → earliest runs ≡ ok (some run)
    → IsMin start_key run runs
unfolding earliest
earliest_lem [] run e = ground (arith, first-sorted_nil start_key)
earliest_lem (r ∷ runs) run e =
    let (m, first, least) = first-sorted start_key r runs in
    subst (λ x. IsMin start_key x (r ∷ runs)) (ground arith) least

-- The tier that the advertised run comes from.
choose_lem :
    (one two three : List CourseRun) (run : CourseRun)
    → choose (record { tier_one = one; tier_two = two; tier_three = three }) ≡ ok (some run)
    → IsMax start_key run one
      ⊎ ((one ≡ []) × IsMin start_key run two)
      ⊎ ((one ≡ []) × (two ≡ []) × IsMax start_key run three)
unfolding choose
choose_lem (r ∷ one) two three run e = inl (latest_lem (r ∷ one) run e)
choose_lem [] (r ∷ two) three run e = inr (inl (refl, earliest_lem (r ∷ two) run e))
choose_lem [] [] (r ∷ three) run e = inr (inr (refl, refl, latest_lem (r ∷ three) run e))
choose_lem [] [] [] run e = ground arith

-- The run is a marketable run of the course, none of these has a better rank, and among those of
-- its rank it starts first if they are still to come, and last if not. A missing start counts as
-- the earliest.
pub record IsChoice (now : ℕ) (runs : List CourseRun) (run : CourseRun) : Type 0 where
  pub member : Memᴰ run runs
  pub marketable : is_marketable run ≡ true
  pub best :
      (q : CourseRun)
      → Memᴰ q runs
      → is_marketable q ≡ true
      → (rank now run < rank now q)
        ⊎ ((rank now run ≡ rank now q)
            × (if nat_beq (rank now run) 1
                then start_key run ≤ start_key q
                else start_key q ≤ start_key run))

module _ (now : ℕ) (runs : List CourseRun) where
  abbrev pub candidates : List CourseRun
  candidates = keep is_marketable runs

  abbrev pub of_rank : ℕ → List CourseRun
  of_rank k = keep (λ run. nat_beq (rank now run) k) candidates

  -- A tier that is empty has no candidate of its rank.
  pub no_rank : (k : ℕ) → of_rank k ≡ [] → (q : CourseRun) → Memᴰ q candidates → rank now q ≢ k
  no_rank k e q m r =
      elim (rw e at (keep-mem (λ run. nat_beq (rank now run) k) candidates m (ground arith))) [ ]

  pub rank-le : (q : CourseRun) → rank now q ≤ 2
  unfolding rank
  rank-le q = ground arith

  ranked : (k : ℕ) (q : CourseRun) → Memᴰ q candidates → rank now q ≡ k → Memᴰ q (of_rank k)
  ranked k q m e = keep-mem (λ run. nat_beq (rank now run) k) candidates m (ground arith)

  of_max :
      (k : ℕ) (run : CourseRun)
      → k ≢ 1
      → ((q : CourseRun) → Memᴰ q candidates → k ≤ rank now q)
      → IsMax start_key run (of_rank k)
      → IsChoice now runs run
  of_max k run other above most =
      let (mem, ranks) = mem-keep (λ r. nat_beq (rank now r) k) candidates most.member in
      let (member, good) = mem-keep is_marketable runs mem in
      record {
        member = member;
        marketable = good;
        best = λ q m g.
            let mq = keep-mem is_marketable runs m g in
            elim (ℕ_discrete (rank now q) k) [
              | yes same ↦
                  let le =
                    All-mem (λ x. start_key x ≤ start_key run) (of_rank k) most.greatest
                      (ranked k q mq same) in
                  inr (ground arith, ground arith)
              | no diff ↦ inl (ground (arith, above q mq))
            ];
      }

  of_min :
      (run : CourseRun)
      → ((q : CourseRun) → Memᴰ q candidates → 1 ≤ rank now q)
      → IsMin start_key run (of_rank 1)
      → IsChoice now runs run
  of_min run above least =
      let (mem, ranks) = mem-keep (λ r. nat_beq (rank now r) 1) candidates least.member in
      let (member, good) = mem-keep is_marketable runs mem in
      record {
        member = member;
        marketable = good;
        best = λ q m g.
            let mq = keep-mem is_marketable runs m g in
            elim (ℕ_discrete (rank now q) 1) [
              | yes same ↦
                  let le =
                    All-mem (λ x. start_key run ≤ start_key x) (of_rank 1) least.least
                      (ranked 1 q mq same) in
                  inr (ground arith, ground arith)
              | no diff ↦ inl (ground (arith, above q mq))
            ];
      }

  by_tier :
      (run : CourseRun)
      → IsMax start_key run (of_rank 0)
        ⊎ ((of_rank 0 ≡ []) × IsMin start_key run (of_rank 1))
        ⊎ ((of_rank 0 ≡ []) × (of_rank 1 ≡ []) × IsMax start_key run (of_rank 2))
      → IsChoice now runs run
  by_tier run (inl most) = of_max 0 run (omega arith) (λ q m. omega arith) most
  by_tier run (inr (inl (none0, least))) =
      of_min run (λ q m. omega (arith, no_rank 0 none0 q m)) least
  by_tier run (inr (inr (none0, none1, most))) =
      of_max 2 run (omega arith) (λ q m. omega (arith, no_rank 0 none0 q m, no_rank 1 none1 q m))
        most

-- The advertised run is a marketable run of the course, none of the marketable runs has a better
-- rank, and among those of its rank it is the one that starts first if they are still to come, and
-- last if not.
pub advertised_course_run-IsChoice :
    (now : ℕ) (runs : List CourseRun) (run : CourseRun)
    → advertised_course_run now runs ≡ ok (some run)
    → IsChoice now runs run
unfolding advertised_course_run
advertised_course_run-IsChoice now runs run e =
    let t = tiers now (candidates now runs) in
    let (one, two, three) = tiers_lem now (candidates now runs) in
    by_tier now runs run
      (rw (one, two, three) at (choose_lem t.tier_one t.tier_two t.tier_three run e))
