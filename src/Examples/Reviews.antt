-- ===== src/Examples/Reviews.antt =====
-- The life of a run in the model of the reviews: submitted, reviewed by Legal and by the staff, and
-- published when it is due.
use course_discovery_ed_uhk.Base.{
  ℕ, ◌≡◌, refl, Bool, true, false, none, some, List, [], ◌∷◌, any, All, all, present_and, ap,
}
use course_discovery_ed_uhk.Run.{
  CourseRun, CourseRunStatus, legal_review, internal_review, reviewed, published,
}
use course_discovery_ed_uhk.Run.Dates.{is_active_course_run}
use course_discovery_ed_uhk.Run.SeatUpdate.{update_or_create_seats}
use course_discovery_ed_uhk.Run.Official.{update_or_create_official_version}
use course_discovery_ed_uhk.Review.{
  save_draft, State, for_legal_review, for_internal_review, for_reviewed, for_go_live,
}
use course_discovery_ed_uhk.Review.Update.{
  Request, Event, edit, go_live, update, step, publish_live, run_events, is_internal_transition,
  is_internal_review_field,
}
use course_discovery_ed_uhk.Review.Update.Coherence.{IsCoherent, IsProper, run_events-IsCoherent}
use course_discovery_ed_uhk.Review.Update.Approval.{IsUnapproved, is_approval, run_events-approved}
use course_discovery_ed_uhk.Review.Update.Access.{update-in_review}
use course_discovery_ed_uhk.Examples.Data.{now, at_day, draft_run}

abbrev start : State
start = record {
  draft = record draft_run { go_live_date = some (at_day 105); seats = [] };
  official = none;
  next_id = 30;
  mail = [];
}

abbrev rename : CourseRun → CourseRun
rename run = record run { weeks_to_complete = some 8 }

abbrev submission : Request
submission = record {
  is_staff = false;
  keys = "weeks_to_complete" ∷ [];
  status = none;
  assign = rename;
  changed = λ _. true;
  draft = false;
  prices = [];
  services_fail = false;
  fails_after_mail = false;
}

abbrev review : CourseRunStatus → Request
review status = record {
  is_staff = true;
  keys = "ofac_comment" ∷ [];
  status = some status;
  assign = λ run. run;
  changed = λ _. false;
  draft = true;
  prices = [];
  services_fail = false;
  fails_after_mail = false;
}

abbrev life : List (ℕ × Event)
life =
    (now, edit submission)
    ∷ (now, edit (review internal_review))
    ∷ (now, edit (review reviewed))
    ∷ (at_day 105, go_live)
    ∷ []

life_runs :
    let s = run_events 10 life start in
    (s.draft.status ≡ published)
    × (s.mail ≡ for_legal_review ∷ for_internal_review ∷ for_reviewed ∷ for_go_live ∷ [])
unfolding run_events step publish_live update is_active_course_run save_draft update_or_create_seats
    update_or_create_official_version
life_runs = (refl, refl)

life-IsProper : All (λ e. IsProper e.1) life
life-IsProper = (
  record { keeps_status = λ _. refl; keeps_draft = λ _. refl },
  (
    record { keeps_status = λ _. refl; keeps_draft = λ _. refl },
    (record { keeps_status = λ _. refl; keeps_draft = λ _. refl }, (tt, tt)),
  ),
)

run_events-IsCoherent_example : IsCoherent (run_events 10 life start)
run_events-IsCoherent_example =
    run_events-IsCoherent 10 life start life-IsProper (record { is_draft = refl; agreed = refl })

life_past : ¬ IsUnapproved (run_events 10 life start)
life_past u = cc (u.early, life_runs.0)

run_events-approved_example : any (λ (e : ℕ × Event). is_approval e.1) life ≡ true
run_events-approved_example =
    run_events-approved 10 life start life-IsProper (record { no_official = refl; early = refl })
      life_past

-- After the submission the team may not edit the run.
abbrev submitted : State
submitted = record start { draft = record start.draft { status = legal_review } }

review_changes : (update now 10 (review internal_review) submitted).1.draft.status ≡ internal_review
unfolding update save_draft
review_changes = refl

update-in_review_example :
    (◌≡◌ {A = Bool} true true)
    × (present_and is_internal_transition (some internal_review) ≡ true)
    × (all is_internal_review_field ("ofac_comment" ∷ []) ≡ true)
update-in_review_example =
    update-in_review now 10 (review internal_review) submitted refl
      (λ e. cc (ap (λ s. s.draft.status) e, review_changes))
