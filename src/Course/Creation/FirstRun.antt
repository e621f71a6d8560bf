-- ===== src/Course/Creation/FirstRun.antt =====
-- The run that is created with a course: create_run_helper
-- (course_discovery/apps/api/v1/views/course_runs.py).
use course_discovery_ed_uhk.Course.Creation.Responses.{
  and_then_created, when_created, created_inj, present-some,
}
use course_discovery_ed_uhk.Course.Creation.Details.{
  HasSeatsOfTracks, AreDetails, copied_details, IsSeated, with_seats-IsSeated, find_run_mem,
  found_details,
}
use course_discovery_ed_uhk.Base.{
  ℕ, String, ◌≡◌, refl, ap, subst, not, Option, none, some, List, [], ◌∷◌, ◌++◌, string_eq, or_else,
}
use course_discovery_ed_uhk.Course.Creation.{
  created, present, CourseRun, Course, Catalog, RunData, find_run, with_seats, old_course_run_key,
  pacing_or_default, copy_old_run, copy_from, with_run, create_run_helper, Env, add_run,
}

-- The pacing that is asked for, else by the instructor.
abbrev pub IsPacing : Option String → String → Type 0
IsPacing none pacing = pacing ≡ "instructor_paced"
IsPacing (some asked) pacing = pacing ≡ asked

-- The only run of the course is the one that the data make, and it is canonical.
pub record IsFirstRun (fields : RunData) (drafts : List Course) (course : Course) : Type 0 where
  pub run : CourseRun
  pub save : String → CourseRun
  pub pacing : String
  pub only : course.runs ≡ run ∷ []
  pub canonical : course.canonical_course_run ≡ some run.key
  pub validated : fields.validated ≡ some save
  pub pacing_is : IsPacing fields.pacing_type pacing
  pub key : run.key ≡ (save pacing).key
  pub pacing_type : run.pacing_type ≡ (save pacing).pacing_type
  pub end : run.end ≡ (save pacing).end
  pub tracks : run.tracks ≡ (save pacing).tracks
  pub seats : HasSeatsOfTracks run
  pub details : AreDetails drafts fields.rerun (save pacing) run

-- A run is created with the course exactly where one is asked for.
abbrev pub IsBegun : Option RunData → List Course → Course → Type 0
IsBegun none drafts course = (course.runs ≡ []) × (course.canonical_course_run ≡ none)
IsBegun (some fields) drafts course = IsFirstRun fields drafts course

-- The run alone distinguishes the two.
abbrev pub same_course : (with_its_run course : Course) → Course
same_course with_its_run course = record course {
  runs = with_its_run.runs;
  canonical_course_run = with_its_run.canonical_course_run;
}

old_key :
    (rerun canonical : Option String)
    → canonical ≡ none
    → old_course_run_key canonical rerun ≡ rerun
old_key none canonical e = e
old_key (some key) canonical e = refl

-- A copy keeps the rest of the run.
pub record IsCopied (others : List Course) (rerun : Option String) (sent run : CourseRun)
    : Type 0 where
  pub key : run.key ≡ sent.key
  pub pacing_type : run.pacing_type ≡ sent.pacing_type
  pub end : run.end ≡ sent.end
  pub tracks : run.tracks ≡ sent.tracks
  pub seats : HasSeatsOfTracks run
  pub details : AreDetails others rerun sent run

copy_old_run-IsCopied :
    (rerun : Option String) (course : Course) (others : List Course)
    (sent seated copied : CourseRun)
    → IsSeated sent seated
    → course.runs ≡ seated ∷ []
    → copy_old_run rerun (course ∷ others) seated ≡ created copied
    → IsCopied others rerun sent copied
unfolding copy_old_run
copy_old_run-IsCopied none course others sent seated copied k only e =
    subst (IsCopied others none sent) (created_inj e) (record {
      key = k.key;
      pacing_type = k.pacing_type;
      end = k.end;
      tracks = k.tracks;
      seats = k.seats;
      details = k.details;
    })
copy_old_run-IsCopied (some key) course others sent seated copied k only e =
    let (old, there, e1) = and_then_created (present (find_run key (course ∷ others))) _ e in
    let found = find_run_mem key (course ∷ others) old (present-some _ there) in
    subst (IsCopied others (some key) sent) (created_inj e1) (record {
      key = k.key;
      pacing_type = k.pacing_type;
      end = k.end;
      tracks = k.tracks;
      seats = record { types = k.seats.types };
      details =
          found_details seated (copy_from old seated) sent course others key old k only found
            (copied_details old seated);
    })

pacing_or_default-IsPacing : (o : Option String) → IsPacing o (pacing_or_default o)
pacing_or_default-IsPacing none = refl
pacing_or_default-IsPacing (some pacing) = refl

-- The run of a new course.
pub create_run_helper-IsFirstRun :
    (days : ℕ) (prices : List (String × ℕ)) (fields : RunData) (others : List Course) (next : ℕ)
    (course : Course) (p : Course × ℕ)
    → course.runs ≡ []
    → course.canonical_course_run ≡ none
    → create_run_helper days prices fields others next course ≡ created p
    → IsFirstRun fields others p.0 × (same_course p.0 course ≡ p.0)
unfolding create_run_helper
create_run_helper-IsFirstRun days prices fields others next course p no_runs no_canonical e =
    let (save, valid, e1) = and_then_created (present fields.validated) _ e in
    let sent : CourseRun = save (pacing_or_default fields.pacing_type) in
    let (seated, with_its, e2) = and_then_created (with_seats days prices next sent) _ e1 in
    let key : Option String = old_course_run_key course.canonical_course_run fields.rerun in
    let (copied, old, e3) =
      and_then_created (copy_old_run key (with_run seated.0 course ∷ others) seated.0) _ e2 in
    let (quiet, e4) =
      when_created (not fields.studio_raises) (created (with_run copied course, seated.1)) e3 in
    let asked : key ≡ fields.rerun =
      old_key fields.rerun course.canonical_course_run no_canonical in
    let k =
      copy_old_run-IsCopied fields.rerun (with_run seated.0 course) others sent seated.0 copied
        (with_seats-IsSeated days prices next sent seated with_its)
        (ap (λ runs. runs ++ seated.0 ∷ []) no_runs)
        (subst (λ o. copy_old_run o (with_run seated.0 course ∷ others) seated.0 ≡ created copied)
          asked old) in
    let same : with_run copied course ≡ p.0 = ap (λ q. q.0) (created_inj e4) in
    subst (λ c. IsFirstRun fields others c × (same_course c course ≡ c)) same
      (
        record {
          run = copied;
          save = save;
          pacing = pacing_or_default fields.pacing_type;
          only = ap (λ runs. runs ++ copied ∷ []) no_runs;
          canonical = ap (λ o. or_else o (some copied.key)) no_canonical;
          validated = present-some fields.validated valid;
          pacing_is = pacing_or_default-IsPacing fields.pacing_type;
          key = k.key;
          pacing_type = k.pacing_type;
          end = k.end;
          tracks = k.tracks;
          seats = k.seats;
          details = k.details;
        },
        refl,
      )

pub add_run-IsBegun :
    (env : Env) (prices : List (String × ℕ)) (run : Option RunData) (catalog : Catalog)
    (course : Course) (p : Course × ℕ)
    → course.runs ≡ []
    → course.canonical_course_run ≡ none
    → add_run env prices run catalog course ≡ created p
    → IsBegun run catalog.drafts p.0 × (same_course p.0 course ≡ p.0)
unfolding add_run
add_run-IsBegun env prices none catalog course p no_runs no_canonical e =
    subst (λ c. IsBegun none catalog.drafts c × (same_course c course ≡ c))
      (ap (λ q. q.0) (created_inj e)) ((no_runs, no_canonical), refl)
add_run-IsBegun env prices (some run) catalog course p no_runs no_canonical e =
    create_run_helper-IsFirstRun env.deadline_days prices run catalog.drafts catalog.next_id course
      p no_runs no_canonical e
