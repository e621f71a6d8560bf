-- ===== src/Review/Update/Approval.antt =====
-- No course run becomes official, let alone published, before a member of the staff has reviewed it.
use course_discovery_ed_uhk.Base.{
  ℕ, String, ◌≡◌, Bool, true, false, ◌&&◌, none, some, List, [], ◌∷◌, arith, ◌==◌, any,
  Option-cases, Bool-cases, inl, inr, present_and, All,
}
use course_discovery_ed_uhk.Run.{CourseRun, CourseRunStatus, reviewed, published, status_eq}
use course_discovery_ed_uhk.Review.{State, save_draft, handle_status_change, on_status}
use course_discovery_ed_uhk.Review.Update.{
  Request, Event, edit, go_live, unpublish, course_edit, handle_internal_review,
  update_seats_if_active, saved_status, assign_status, save_and_push, try_update, update_course_run,
  update, publish_live, unpublish_inactive, republish, update_course, step, run_events,
}
use course_discovery_ed_uhk.Review.Update.Coherence.{IsFieldUpdate, IsProper}

-- A staff request to set the status to Reviewed.
abbrev pub is_approval : Event → Bool
is_approval (edit request) =
    request.is_staff && present_and (λ status. status == reviewed) request.status
is_approval _ = false

-- A status before the review is passed.
abbrev pub is_early : CourseRunStatus → Bool
is_early reviewed = false
is_early published = false
is_early _ = true

pub record IsUnapproved (s : State) : Type 0 where
  pub no_official : s.official ≡ none
  pub early : is_early s.draft.status ≡ true

save_draft-IsUnapproved :
    (now : ℕ) (send : Bool) (run : CourseRun) (s : State)
    → IsUnapproved s
    → is_early run.status ≡ true
    → IsUnapproved (save_draft now send run s)
unfolding save_draft handle_status_change on_status
save_draft-IsUnapproved now send run s u e = ground arith

update_seats_if_active-IsUnapproved :
    (now days : ℕ) (prices : List (String × ℕ)) (s s' : State)
    → update_seats_if_active now days prices s ≡ some s'
    → IsUnapproved s
    → IsUnapproved s'
unfolding update_seats_if_active
update_seats_if_active-IsUnapproved now days prices s s' e u = ground arith

save_and_push-IsUnapproved :
    (now days : ℕ) (request : Request) (status : CourseRunStatus) (s s' : State)
    → is_early status ≡ true
    → IsUnapproved s
    → save_and_push now days request status s ≡ some s'
    → IsUnapproved s'
unfolding save_and_push
save_and_push-IsUnapproved now days request status s s' early u e =
    let run = record (request.assign s.draft) { status = status } in
    let saved = save_draft now true run s in
    elim (Option-cases (update_seats_if_active now days request.prices saved)) [
      | inl failed ↦ ground arith
      | inr (t, updated) ↦
          let ut =
            update_seats_if_active-IsUnapproved now days request.prices saved t updated
              (save_draft-IsUnapproved now true run s u early) in
          ground arith
    ]

update-IsUnapproved :
    (now days : ℕ) (request : Request) (s : State)
    → IsFieldUpdate request.assign
    → is_approval (edit request) ≡ false
    → IsUnapproved s
    → IsUnapproved (update now days request s).1
unfolding update update_course_run handle_internal_review try_update
update-IsUnapproved now days request s f a u =
    let status = saved_status request false s.draft in
    elim (Option-cases (save_and_push now days request status s)) [
      | inl failed ↦ ground (
        arith,
        f.keeps_status s.draft,
        save_draft-IsUnapproved now true (assign_status request.status (request.assign s.draft)) s
            u,
      )
      | inr (t, e) ↦ ground (
        arith,
        f.keeps_status s.draft,
        save_draft-IsUnapproved now true (assign_status request.status (request.assign s.draft)) s
            u,
        save_and_push-IsUnapproved now days request status s t (ground arith) u e,
      )
    ]

step-IsUnapproved :
    (now days : ℕ) (event : Event) (s : State)
    → IsProper event
    → is_approval event ≡ false
    → IsUnapproved s
    → IsUnapproved (step now days event s)
unfolding step publish_live unpublish_inactive update_course republish
step-IsUnapproved now days (edit request) s f a u = update-IsUnapproved now days request s f a u
step-IsUnapproved now days go_live s f a u = ground arith
step-IsUnapproved now days unpublish s f a u = ground arith
step-IsUnapproved now days (course_edit draft changed) s f a u = ground arith

run_events-IsUnapproved :
    (days : ℕ) (events : List (ℕ × Event)) (s : State)
    → All (λ e. IsProper e.1) events
    → any (λ (e : ℕ × Event). is_approval e.1) events ≡ false
    → IsUnapproved s
    → IsUnapproved (run_events days events s)
unfolding run_events
run_events-IsUnapproved days [] s proper a u = u
run_events-IsUnapproved days ((now, event) ∷ events) s proper a u =
    run_events-IsUnapproved days events (step now days event s) proper.1 (ground arith)
      (step-IsUnapproved now days event s proper.0 (ground arith) u)

-- Of a run that has no official version and is not yet past its review, an official version comes to
-- be, or a status of Reviewed or Published, only if a member of the staff asked for Reviewed. The
-- serializers assign neither the status nor the draft mark.
pub run_events-approved :
    (days : ℕ) (events : List (ℕ × Event)) (s : State)
    → All (λ e. IsProper e.1) events
    → IsUnapproved s
    → ¬ IsUnapproved (run_events days events s)
    → any (λ (e : ℕ × Event). is_approval e.1) events ≡ true
run_events-approved days events s proper u past =
    elim (Bool-cases (any (λ (e : ℕ × Event). is_approval e.1) events)) [
      | inl found ↦ found
      | inr never ↦ absurd (past (run_events-IsUnapproved days events s proper never u))
    ]
