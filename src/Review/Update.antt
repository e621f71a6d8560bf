-- ===== src/Review/Update.antt =====
-- CourseRunViewSet.update, handle_internal_review and _update_course_run
-- (course_discovery/apps/api/v1/views/course_runs.py) on one course run, with the other things that
-- change its status: the publish_live_course_runs command, Course.unpublish_inactive_runs, and
-- CourseViewSet.update_course (course_discovery/apps/api/v1/views/courses.py). The draft of the run
-- exists; permissions are checked elsewhere. A request that fails inside `_update_course_run` is
-- rolled back, but an e-mail that its save has sent by then is not taken back.
pub mod Coherence
pub mod Approval
pub mod Access
use course_discovery_ed_uhk.Base.{
  ℕ, String, Bool, true, false, ◌&&◌, ◌||◌, not, Option, none, some, List, [], ◌∷◌, map, ◌==◌,
  string_eq, leb, if◌then◌else◌, is_some, present_and, any, all,
}
use course_discovery_ed_uhk.Run.{
  CourseRun, Seat, CourseRunStatus, unpublished, legal_review, internal_review, reviewed, published,
  status_eq,
}
use course_discovery_ed_uhk.Run.Dates.{is_active_course_run}
use course_discovery_ed_uhk.Run.SeatUpdate.{Result, update_or_create_seats}
use course_discovery_ed_uhk.Review.{
  State, Email, make_official, publish, go_live_is_due, save_draft,
}

-- What a request brings, once it is parsed and validated: the keys of its data other than `status`,
-- `draft` and `prices`, and the assignment of their values by the serializer. `changed` is what
-- `reviewable_data_has_changed` says of the run; `services_fail` tells whether a call of another
-- service that the request makes raises, and `fails_after_mail` whether this is after the save has sent
-- its e-mail.
pub record Request : Type 0 where
  pub is_staff : Bool
  pub keys : List String
  pub status : Option CourseRunStatus
  pub assign : CourseRun → CourseRun
  pub changed : CourseRun → Bool
  pub draft : Bool
  pub prices : List (String × ℕ)
  pub services_fail : Bool
  pub fails_after_mail : Bool

pub data Response : Type 0 where
  done bad_request forbidden server_error : Response

abbrev pub in_review : CourseRun → Bool
in_review run = (run.status == legal_review) || (run.status == internal_review)

-- CourseRunStatus.INTERNAL_STATUS_TRANSITIONS
abbrev pub is_internal_transition : CourseRunStatus → Bool
is_internal_transition status = (status == internal_review) || (status == reviewed)

-- CourseRun.INTERNAL_REVIEW_FIELDS, without `status`, which stands apart
abbrev pub is_internal_review_field : String → Bool
is_internal_review_field key = (key == "has_ofac_restrictions") || (key == "ofac_comment")

abbrev pub assign_status : Option CourseRunStatus → CourseRun → CourseRun
assign_status none run = run
assign_status (some status) run = record run { status = status }

-- The e-mails that have been sent when a request fails that saves `run`.
unfoldable pub mail_at_failure : ℕ → Request → CourseRun → State → List Email
mail_at_failure now request run s =
    if request.services_fail && not request.fails_after_mail
    then s.mail
    else (save_draft now true run s).mail

-- The rows are as before, and the e-mails stay sent.
abbrev pub rolled_back : State → List Email → State
rolled_back s mail = record s { mail = mail }

-- A save that raises is rolled back by its own transaction.
unfoldable pub handle_internal_review : ℕ → Request → State → Response × State
unfolding mail_at_failure
handle_internal_review now request s =
    let run = assign_status request.status (request.assign s.draft) in
    if not (all is_internal_review_field request.keys)
    then (bad_request, s)
    else if request.services_fail
    then (server_error, rolled_back s (mail_at_failure now request run s))
    else (done, save_draft now true run s)

-- `if course_run in course_run.course.active_course_runs: course_run.update_or_create_seats(...)`
abbrev pub official_types : Option CourseRun → Option (List String)
official_types none = none
official_types (some official) = some (map (λ seat. seat.type) official.seats)

update_seats_if_active : (now days : ℕ) → List (String × ℕ) → State → Option State
update_seats_if_active now days prices s =
    if is_active_course_run now s.draft
    then elim (update_or_create_seats days s.draft.end (official_types s.official)
        s.draft.type.tracks prices s.next_id s.draft.seats) [
          | Result.ok (seats, next_id) ↦
              some (record s { draft = record s.draft { seats = seats }; next_id = next_id })
          | _ ↦ none
        ]
    else some s

-- `official_run.status = CourseRunStatus.Unpublished`, which raises if there is no official run.
unpublish_official : State → Option State
unpublish_official s = elim s.official [
  | none ↦ none
  | some official ↦ some (record s { official = some (record official { status = unpublished }) })
]

-- The status that `save_kwargs` carries.
abbrev pub saved_status : Request → Bool → CourseRun → CourseRunStatus
saved_status request non_exempt_update run =
    if not request.draft && ((run.status == unpublished) || non_exempt_update)
    then legal_review
    else if non_exempt_update
    then unpublished
    else run.status

-- From the save of the serializer on.
save_and_push : (now days : ℕ) → Request → CourseRunStatus → State → Option State
unfolding update_seats_if_active
save_and_push now days request status s =
    let saved = save_draft now true (record (request.assign s.draft) { status = status }) s in
    elim (update_seats_if_active now days request.prices saved) [
      | none ↦ none
      | some s' ↦
          if request.services_fail
          then none
          else if (not request.draft && (s'.draft.status == published))
              || (s'.draft.status == reviewed)
          then some (make_official s')
          else some s'
    ]

-- `_update_course_run` without its wrapper; `none` is any exception.
try_update : (now days : ℕ) → Request → State → Option State
unfolding save_and_push unpublish_official
try_update now days request s =
    let non_exempt_update = request.changed s.draft && (s.draft.status == reviewed) in
    let status = saved_status request non_exempt_update s.draft in
    if non_exempt_update
    then elim (unpublish_official s) [
      | none ↦ none
      | some s' ↦ save_and_push now days request status s'
    ]
    else save_and_push now days request status s

-- What `_update_course_run` has sent when it raises: nothing before its save.
unfoldable pub mail_of_failed_update : ℕ → Request → State → List Email
unfolding unpublish_official mail_at_failure
mail_of_failed_update now request s =
    let non_exempt_update = request.changed s.draft && (s.draft.status == reviewed) in
    let status = saved_status request non_exempt_update s.draft in
    let run = record (request.assign s.draft) { status = status } in
    if non_exempt_update
    then elim (unpublish_official s) [
      | none ↦ s.mail
      | some s' ↦ mail_at_failure now request run s'
    ]
    else mail_at_failure now request run s

-- `writable_request_wrapper`: an exception rolls the transaction back.
unfoldable pub update_course_run : (now days : ℕ) → Request → State → Response × State
unfolding try_update mail_of_failed_update
update_course_run now days request s = elim (try_update now days request s) [
  | none ↦ (bad_request, rolled_back s (mail_of_failed_update now request s))
  | some s' ↦ (done, s')
]

unfoldable pub update : (now days : ℕ) → Request → State → Response × State
unfolding handle_internal_review update_course_run
update now days request s =
    if request.is_staff && in_review s.draft && present_and is_internal_transition request.status
    then handle_internal_review now request s
    else if in_review s.draft
    then (forbidden, s)
    else if any is_internal_review_field request.keys
    then (bad_request, s)
    else update_course_run now days request s

-- The publish_live_course_runs command, on the official version.
unfoldable pub publish_live : ℕ → State → State
publish_live now s = elim s.official [
  | none ↦ s
  | some official ↦
      if (official.status == reviewed) && go_live_is_due now official then publish now true s else s
]

-- The body of the loop of Course.unpublish_inactive_runs, on a published official version.
unfoldable pub unpublish_inactive : ℕ → State → State
unpublish_inactive now s = elim s.official [
  | none ↦ s
  | some official ↦
      if official.status == published
      then save_draft now true (record s.draft { status = unpublished })
          (record s { official = some (record official { status = unpublished }) })
      else s
]

-- CourseViewSet.update_course, `if not draft:` an active published run is made official again.
republish : ℕ → (draft : Bool) → State → State
republish now draft s =
    if not draft && is_active_course_run now s.draft && (s.draft.status == published)
    then make_official s
    else s

-- `if changed:` a reviewed run is taken back with its official version, which has to be there.
take_back : ℕ → State → Option State
unfolding unpublish_official
take_back now s = elim (unpublish_official s) [
  | none ↦ none
  | some s' ↦ some (save_draft now true (record s'.draft { status = unpublished }) s')
]

-- What CourseViewSet.update_course does to a run of the course.
unfoldable pub update_course : ℕ → (draft changed : Bool) → State → State
unfolding republish take_back
update_course now draft changed s =
    let s' = republish now draft s in
    if changed && (s'.draft.status == reviewed)
    then elim (take_back now s') [ none ↦ s | some t ↦ t ]
    else s'

-- What can happen to a course run, and when.
pub data Event : Type 0 where
  edit : Request → Event
  go_live unpublish : Event
  course_edit : (draft changed : Bool) → Event

unfoldable pub step : (now days : ℕ) → Event → State → State
step now days (edit request) s = (update now days request s).1
step now days go_live s = publish_live now s
step now days unpublish s = unpublish_inactive now s
step now days (course_edit draft changed) s = update_course now draft changed s

unfoldable pub run_events : ℕ → List (ℕ × Event) → State → State
run_events days [] s = s
run_events days ((now, event) ∷ events) s = run_events days events (step now days event s)
