-- ===== src/Loaders/Analytics/Totals.antt =====
-- The counts of the programs are sums over the summaries of the runs
-- (course_discovery/apps/course_metadata/data_loaders/analytics_api.py).
use course_discovery_ed_uhk.Base.{
  ℕ, ◌+◌, String, ◌≡◌, refl, ap, Option, none, some, List, [], ◌∷◌, nat_beq, nat_beq_iff,
  if◌then◌else◌, arith, Bool-cases, inl, inr,
}
use course_discovery_ed_uhk.Loaders.Analytics.{
  Change, CourseRunSummary, Entry, Loaded, add_count, add_run, process_course_run_summary,
  process_summaries, add_to_programs, process_course_enrollment_count, process_courses, ingest,
}

-- The count of a key, 0 where there is none.
abbrev pub count_of : ℕ → List Entry → ℕ
count_of uuid [] = 0
count_of uuid (e ∷ es) = if nat_beq e.uuid uuid then e.count else count_of uuid es

-- What `count` enrollments in a course with these programs give to a program.
abbrev pub share : (program : ℕ) → (count : ℕ) → (programs : List ℕ) → ℕ
share program count [] = 0
share program count (p ∷ ps) = (if nat_beq p program then count else 0) + share program count ps

module _ (course_of : String → Option ℕ) (programs_of : ℕ → List ℕ) where
  abbrev share_of : ℕ → ℕ → Option ℕ → ℕ
  share_of program count none = 0
  share_of program count (some course) = share program count (programs_of course)

  -- The sum over the summaries of the runs that are known, each as often as the program has its course.
  abbrev pub total : ℕ → List CourseRunSummary → ℕ
  total program [] = 0
  total program (x ∷ xs) = share_of program x.count (course_of x.course_id) + total program xs

  sum_of : ℕ → List Entry → ℕ
  sum_of program [] = 0
  sum_of program (c ∷ cs) = share program c.count (programs_of c.uuid) + sum_of program cs

  count_of-add_count :
      (q p n : ℕ) (r : Change) (es : List Entry)
      → count_of q (add_count p n r es) ≡ count_of q es + (if nat_beq p q then n else 0)
  unfolding add_count
  count_of-add_count q p n r [] = ground arith
  count_of-add_count q p n r (e ∷ es) = ground (arith, count_of-add_count q p n r es)

  count_of-add_to_programs :
      (q n : ℕ) (r : Change) (ps : List ℕ) (es : List Entry)
      → count_of q (add_to_programs course_of programs_of n r ps es) ≡ count_of q es + share q n ps
  unfolding add_to_programs
  count_of-add_to_programs q n r [] es = omega arith
  count_of-add_to_programs q n r (p ∷ ps) es =
      omega (
        arith,
        count_of-add_to_programs q n r ps (add_count p n r es),
        count_of-add_count q p n r es,
      )

  count_of-process_courses :
      (q : ℕ) (cs es : List Entry)
      → count_of q (process_courses course_of programs_of cs es) ≡ count_of q es + sum_of q cs
  unfolding process_courses process_course_enrollment_count sum_of
  count_of-process_courses q [] es = omega arith
  count_of-process_courses q (c ∷ cs) es = omega (
    arith,
    count_of-process_courses q cs (process_course_enrollment_count course_of programs_of c es),
    count_of-add_to_programs q c.count c.recent_count (programs_of c.uuid) es,
  )

  share-plus : (q n m : ℕ) (ps : List ℕ) → share q (n + m) ps ≡ share q n ps + share q m ps
  share-plus q n m [] = refl
  share-plus q n m (p ∷ ps) = ground (arith, share-plus q n m ps)

  sum_of-add_count :
      (q c n : ℕ) (r : Change) (cs : List Entry)
      → sum_of q (add_count c n r cs) ≡ sum_of q cs + share q n (programs_of c)
  unfolding add_count sum_of
  sum_of-add_count q c n r [] = omega arith
  sum_of-add_count q c n r (e ∷ es) = elim (Bool-cases (nat_beq e.uuid c)) [
    | inl k ↦
        let same : share q n (programs_of e.uuid) ≡ share q n (programs_of c) =
          ap (λ u. share q n (programs_of u)) ((nat_beq_iff e.uuid c).0 k) in
        rw k (omega (arith, same, share-plus q e.count n (programs_of e.uuid)))
    | inr k ↦ rw k (omega (arith, sum_of-add_count q c n r es))
  ]

  abbrev course_share : ℕ → ℕ → Option ℕ → ℕ
  course_share course count none = 0
  course_share course count (some c) = if nat_beq c course then count else 0

  sum_of-add_run :
      (q : ℕ) (x : CourseRunSummary) (o : Option ℕ) (s : Loaded)
      → sum_of q (add_run course_of programs_of x o s).course_dictionary
        ≡ sum_of q s.course_dictionary + share_of q x.count o
  unfolding add_run
  sum_of-add_run q x none s = omega arith
  sum_of-add_run q x (some c) s =
      sum_of-add_count q c x.count x.recent_count_change s.course_dictionary

  count_of-add_run :
      (q : ℕ) (x : CourseRunSummary) (o : Option ℕ) (s : Loaded)
      → count_of q (add_run course_of programs_of x o s).course_dictionary
        ≡ count_of q s.course_dictionary + course_share q x.count o
  unfolding add_run
  count_of-add_run q x none s = omega arith
  count_of-add_run q x (some c) s =
      count_of-add_count q c x.count x.recent_count_change s.course_dictionary

  sum_of-process_summaries :
      (q : ℕ) (xs : List CourseRunSummary) (s : Loaded)
      → sum_of q (process_summaries course_of programs_of xs s).course_dictionary
        ≡ sum_of q s.course_dictionary + total q xs
  unfolding process_summaries process_course_run_summary
  sum_of-process_summaries q [] s = omega arith
  sum_of-process_summaries q (x ∷ xs) s = omega (
    arith,
    sum_of-process_summaries q xs (process_course_run_summary course_of programs_of x s),
    sum_of-add_run q x (course_of x.course_id) s,
  )

  -- The sum over the summaries of the runs of a course.
  abbrev pub course_total : ℕ → List CourseRunSummary → ℕ
  course_total course [] = 0
  course_total course (x ∷ xs) =
      course_share course x.count (course_of x.course_id) + course_total course xs

  count_of-process_summaries :
      (q : ℕ) (xs : List CourseRunSummary) (s : Loaded)
      → count_of q (process_summaries course_of programs_of xs s).course_dictionary
        ≡ count_of q s.course_dictionary + course_total q xs
  unfolding process_summaries process_course_run_summary
  count_of-process_summaries q [] s = omega arith
  count_of-process_summaries q (x ∷ xs) s = omega (
    arith,
    count_of-process_summaries q xs (process_course_run_summary course_of programs_of x s),
    count_of-add_run q x (course_of x.course_id) s,
  )

  -- The count of a program is the sum of the counts in the summaries of the runs that are known, each
  -- as often as the program is among those of the course of the run, and the count of a course is
  -- the sum over the summaries of its runs, in whatever order the summaries come.
  pub ingest-totals :
      (program course : ℕ) (summaries : List CourseRunSummary)
      → (count_of program (ingest course_of programs_of summaries).program_dictionary
          ≡ total program summaries)
        × (count_of course (ingest course_of programs_of summaries).course_dictionary
            ≡ course_total course summaries)
  unfolding ingest sum_of
  ingest-totals program course summaries =
      let start : Loaded = record { runs = []; course_dictionary = []; program_dictionary = [] } in
      let cs : List Entry =
        (process_summaries course_of programs_of summaries start).course_dictionary in
      let programs = count_of-process_courses program cs [] in
      let sums = sum_of-process_summaries program summaries start in
      let courses = count_of-process_summaries course summaries start in
      (omega (arith, programs, sums), omega (arith, courses))
