-- ===== src/Course/Creation/Details.antt =====
-- What a new run takes from what was sent and from an old run: create_run_helper
-- (course_discovery/apps/api/v1/views/course_runs.py).
use course_discovery_ed_uhk.Course.Creation.Responses.{created_inj}
use mathlib.Core.List.{Memᴰ}
use mathlib.Core.List.Memᴰ
use course_discovery_ed_uhk.Base.{
  ℕ, String, ◌≡◌, refl, sym, ap, subst, Option, none, some, List, [], ◌∷◌, any, first, ◌⊎◌, ◌∙◌,
  ◌==◌, string_eq, eq_iff, or_else, keep, mem-keep, Option-cases, inl, inr,
}
use course_discovery_ed_uhk.Run.{Seat}
use course_discovery_ed_uhk.Run.SeatUpdate.{
  Result, ok, validation_error, type_error, overflow_error, multiple_objects_returned, of_type, has,
  seat_types,
}
use course_discovery_ed_uhk.Run.SeatUpdate.Types.{update_or_create_seats-types}
use course_discovery_ed_uhk.Course.Creation.{
  created, CourseRun, Course, find_run, set_seats, with_seats, copy_from,
}

-- Its seats are of exactly the types of the tracks.
pub record HasSeatsOfTracks (run : CourseRun) : Type 0 where
  pub types : (t : String) → any (of_type t) run.seats ≡ has (seat_types run.tracks) t

-- What a rerun takes over from an old run.
pub record SameDetails (old run : CourseRun) : Type 0 where
  pub language : run.language ≡ old.language
  pub min_effort : run.min_effort ≡ old.min_effort
  pub max_effort : run.max_effort ≡ old.max_effort
  pub weeks_to_complete : run.weeks_to_complete ≡ old.weeks_to_complete
  pub staff : run.staff ≡ old.staff
  pub transcript_languages : run.transcript_languages ≡ old.transcript_languages

-- A run of one of the drafts, with the key.
pub record IsRunOf (drafts : List Course) (key : String) (old : CourseRun) : Type 0 where
  pub course : Course
  pub draft : Memᴰ course drafts
  pub run : Memᴰ old course.runs
  pub key_is : old.key ≡ key

-- Where the details of the new run are from: from what was sent, or from the old run that was named,
-- unless the new run has that name itself.
abbrev pub AreDetails : List Course → Option String → (sent run : CourseRun) → Type 0
AreDetails drafts none sent run = SameDetails sent run
AreDetails drafts (some key) sent run =
    ((sent.key ≡ key) × SameDetails sent run)
    ⊎ ((old : CourseRun) × (IsRunOf drafts key old × SameDetails old run))

pub set_seats_created :
    (run : CourseRun) (result : Result (List Seat × ℕ)) (p : CourseRun × ℕ)
    → set_seats run result ≡ created p
    → (seats : List Seat) × ((next : ℕ) × ((result ≡ ok (seats, next))
          × (record run { seats = seats } ≡ p.0)))
unfolding set_seats
set_seats_created run (ok (seats, next)) p e =
    (seats, (next, (refl, ap (λ q. q.0) (created_inj e))))
set_seats_created run validation_error p e = cc
set_seats_created run type_error p e = cc
set_seats_created run overflow_error p e = cc
set_seats_created run multiple_objects_returned p e = cc

pub seats_apart :
    (run : CourseRun) (seats : List Seat) → SameDetails run (record run { seats = seats })
seats_apart run seats = record {
  language = refl;
  min_effort = refl;
  max_effort = refl;
  weeks_to_complete = refl;
  staff = refl;
  transcript_languages = refl;
}

pub copied_details : (old run : CourseRun) → SameDetails old (copy_from old run)
copied_details old run = record {
  language = refl;
  min_effort = refl;
  max_effort = refl;
  weeks_to_complete = refl;
  staff = refl;
  transcript_languages = refl;
}

pub followed : (a b c : CourseRun) → SameDetails a b → SameDetails b c → SameDetails a c
followed a b c h k = record {
  language = k.language ∙ h.language;
  min_effort = k.min_effort ∙ h.min_effort;
  max_effort = k.max_effort ∙ h.max_effort;
  weeks_to_complete = k.weeks_to_complete ∙ h.weeks_to_complete;
  staff = k.staff ∙ h.staff;
  transcript_languages = k.transcript_languages ∙ h.transcript_languages;
}

-- With its seats, a run is as it was sent.
pub record IsSeated (sent run : CourseRun) : Type 0 where
  pub key : run.key ≡ sent.key
  pub pacing_type : run.pacing_type ≡ sent.pacing_type
  pub end : run.end ≡ sent.end
  pub tracks : run.tracks ≡ sent.tracks
  pub details : SameDetails sent run
  pub seats : HasSeatsOfTracks run

pub with_seats-IsSeated :
    (days : ℕ) (prices : List (String × ℕ)) (next : ℕ) (run : CourseRun) (p : CourseRun × ℕ)
    → with_seats days prices next run ≡ created p
    → IsSeated run p.0
unfolding with_seats
with_seats-IsSeated days prices next run p e =
    let (seats, (next', (made, same))) = set_seats_created run _ p e in
    subst (IsSeated run) same (record {
      key = refl;
      pacing_type = refl;
      end = refl;
      tracks = refl;
      details = seats_apart run seats;
      seats = record {
        types =
            update_or_create_seats-types days run.end none run.tracks prices next run.seats seats
              next' made;
      };
    })

pub first_mem : {A : Type 0} {x : A} (xs : List A) → first xs ≡ some x → Memᴰ x xs
first_mem [] e = cc
first_mem (y ∷ xs) e = Memᴰ.head (cc e)

pub find_run_mem :
    (key : String) (courses : List Course) (old : CourseRun)
    → find_run key courses ≡ some old
    → IsRunOf courses key old
unfolding find_run
find_run_mem key [] old e = cc
find_run_mem key (c ∷ cs) old e = elim (Option-cases (first (keep (λ r. r.key == key) c.runs))) [
  | inl missing ↦
      let k = find_run_mem key cs old (rw (missing, or_else) at e) in
      record { course = k.course; draft = Memᴰ.tail k.draft; run = k.run; key_is = k.key_is }
  | inr (r, found) ↦
      let same : r ≡ old = cc (rw (found, or_else) at e) in
      let (there, test) = mem-keep (λ r'. r'.key == key) c.runs (first_mem _ found) in
      record {
        course = c;
        draft = Memᴰ.head refl;
        run = subst (λ o. Memᴰ o c.runs) same there;
        key_is = subst (λ o. o.key ≡ key) same ((eq_iff r.key key).0 test);
      }
]

-- The new course has the run without its details, so that a rerun of itself finds it.
pub found_details :
    (seated copied : CourseRun) (sent : CourseRun) (course : Course) (others : List Course)
    (key : String) (old : CourseRun)
    → IsSeated sent seated
    → course.runs ≡ seated ∷ []
    → IsRunOf (course ∷ others) key old
    → SameDetails old copied
    → AreDetails others (some key) sent copied
found_details seated copied sent course others key old k only found same =
    elim (Memᴰ.cases_cons found.draft) [
      | inr there ↦ inr (
        old,
        (
          record { course = found.course; draft = there; run = found.run; key_is = found.key_is },
          same,
        ),
      )
      | inl here ↦
          let m : Memᴰ old (seated ∷ []) =
            subst (Memᴰ old) (ap (λ c. c.runs) here ∙ only) found.run in
          elim (Memᴰ.cases_cons m) [
            | inr nothing ↦ elim nothing [ ]
            | inl q ↦ inl (
              sym k.key ∙ ap (λ r. r.key) (sym q) ∙ found.key_is,
              followed sent seated copied k.details (subst (λ o. SameDetails o copied) q same),
            )
          ]
    ]
