-- ===== src/Review/Update/Coherence.antt =====
-- The draft and its official version agree on the status, at all times.
use course_discovery_ed_uhk.Base.{
  ℕ, ◌≡◌, refl, Bool, true, false, ◌&&◌, not, Option, none, some, List, [], ◌∷◌, arith, ◌==◌,
  Option-cases, inl, inr, Bool-cases, ◌⊎◌, ◌≢◌, ◌∙◌, String, present_and, All,
}
use course_discovery_ed_uhk.Run.{
  CourseRun, CourseRunStatus, unpublished, reviewed, published, status_eq,
}
use course_discovery_ed_uhk.Run.Official.{update_or_create_official_version}
use course_discovery_ed_uhk.Review.{
  State, make_official, publish, on_status, handle_status_change, save_draft,
}
use course_discovery_ed_uhk.Review.Update.{
  saved_status, assign_status, in_review, is_internal_transition, Request, Event, edit, go_live,
  unpublish, course_edit, handle_internal_review, update_seats_if_active, unpublish_official,
  save_and_push, try_update, update_course_run, update, publish_live, unpublish_inactive, republish,
  take_back, update_course, step, run_events,
}

-- The status of an official version beside a draft of a given status: a draft that is reviewed or
-- published has one of its own status, and any other draft has an unpublished one or none.
abbrev pub official_status : CourseRunStatus → CourseRunStatus
official_status reviewed = reviewed
official_status published = published
official_status _ = unpublished

abbrev pub agrees : CourseRunStatus → Option CourseRun → Bool
agrees status none = official_status status == unpublished
agrees status (some official) = not official.draft && (official.status == official_status status)

pub record IsCoherent (s : State) : Type 0 where
  pub is_draft : s.draft.draft ≡ true
  pub agreed : agrees s.draft.status s.official ≡ true

-- The serializer assigns neither the status nor the draft mark.
pub record IsFieldUpdate (assign : CourseRun → CourseRun) : Type 0 where
  pub keeps_status : (run : CourseRun) → (assign run).status ≡ run.status
  pub keeps_draft : (run : CourseRun) → (assign run).draft ≡ run.draft

official_fields :
    (next : ℕ) (run : CourseRun) (official : Option CourseRun)
    → let version = (update_or_create_official_version next run official).0 in
      (version.draft ≡ false) × (version.status ≡ run.status)
unfolding update_or_create_official_version
official_fields next run none = (refl, refl)
official_fields next run (some official) = (refl, refl)

-- A draft that is reviewed or published agrees with the official version made of it.
make_official-IsCoherent :
    (s : State)
    → s.draft.draft ≡ true
    → official_status s.draft.status ≡ s.draft.status
    → IsCoherent (make_official s)
unfolding make_official
make_official-IsCoherent s d h = ground (arith, official_fields s.next_id s.draft s.official)

-- Publishing a state whose official version is reviewed or published.
publish-IsCoherent :
    (now : ℕ) (send : Bool) (s : State) → IsCoherent s → IsCoherent (publish now send s)
unfolding publish
publish-IsCoherent now send s c = ground arith

-- A save keeps the agreement if the row to save agrees, or has just been reviewed.
save_draft-IsCoherent :
    (now : ℕ) (send : Bool) (run : CourseRun) (s : State)
    → run.draft ≡ true
    → (agrees run.status s.official ≡ true)
      ⊎ ((run.status ≡ reviewed) × (s.draft.status ≢ reviewed))
    → IsCoherent (save_draft now send run s)
unfolding save_draft handle_status_change on_status
save_draft-IsCoherent now send run s d h =
    let s' = record s { draft = run } in
    ground (
      arith,
      λ (r : run.status ≡ reviewed). make_official-IsCoherent s' d (ground arith),
      λ (r : run.status ≡ reviewed).
          publish-IsCoherent now true (make_official s')
            (make_official-IsCoherent s' d (ground arith)),
    )

handle_internal_review-IsCoherent :
    (now : ℕ) (request : Request) (s : State)
    → IsFieldUpdate request.assign
    → in_review s.draft ≡ true
    → present_and is_internal_transition request.status ≡ true
    → IsCoherent s
    → IsCoherent (handle_internal_review now request s).1
unfolding handle_internal_review
handle_internal_review-IsCoherent now request s f r t c =
    let run = assign_status request.status (request.assign s.draft) in
    ground (arith, f.keeps_draft s.draft, save_draft-IsCoherent now true run s)

-- Updating the seats touches neither a status nor the official version.
update_seats_if_active-IsCoherent :
    (now days : ℕ) (prices : List (String × ℕ)) (s s' : State)
    → update_seats_if_active now days prices s ≡ some s'
    → IsCoherent s
    → IsCoherent s'
unfolding update_seats_if_active
update_seats_if_active-IsCoherent now days prices s s' e c = ground arith

save_and_push-IsCoherent :
    (now days : ℕ) (request : Request) (status : CourseRunStatus) (s s' : State)
    → IsFieldUpdate request.assign
    → s.draft.draft ≡ true
    → agrees status s.official ≡ true
    → save_and_push now days request status s ≡ some s'
    → IsCoherent s'
unfolding save_and_push
save_and_push-IsCoherent now days request status s s' f d a e =
    let run = record (request.assign s.draft) { status = status } in
    let saved = save_draft now true run s in
    let c = save_draft-IsCoherent now true run s (f.keeps_draft s.draft ∙ d) (inl a) in
    elim (Option-cases (update_seats_if_active now days request.prices saved)) [
      | inl failed ↦ ground arith
      | inr (t, updated) ↦
          let ct = update_seats_if_active-IsCoherent now days request.prices saved t updated c in
          ground (arith, make_official-IsCoherent t)
    ]

try_update-IsCoherent :
    (now days : ℕ) (request : Request) (s s' : State)
    → IsFieldUpdate request.assign
    → IsCoherent s
    → try_update now days request s ≡ some s'
    → IsCoherent s'
unfolding try_update unpublish_official
try_update-IsCoherent now days request s s' f c e =
    let non_exempt = request.changed s.draft && (s.draft.status == reviewed) in
    let status = saved_status request non_exempt s.draft in
    elim (Bool-cases non_exempt) [
      | inl back ↦ elim (Option-cases s.official) [
        | inl missing ↦ ground arith
        | inr (o, there) ↦
            let t = record s { official = some (record o { status = unpublished }) } in
            save_and_push-IsCoherent now days request status t s' f c.is_draft (ground arith)
              (ground arith)
      ]
      | inr plain ↦
          save_and_push-IsCoherent now days request status s s' f c.is_draft (ground arith)
            (ground arith)
    ]

update-IsCoherent :
    (now days : ℕ) (request : Request) (s : State)
    → IsFieldUpdate request.assign
    → IsCoherent s
    → IsCoherent (update now days request s).1
unfolding update update_course_run
update-IsCoherent now days request s f c = elim (Option-cases (try_update now days request s)) [
  | inl failed ↦ ground (arith, handle_internal_review-IsCoherent now request s f)
  | inr (t, e) ↦
      let ct = try_update-IsCoherent now days request s t f c e in
      ground (arith, handle_internal_review-IsCoherent now request s f)
]

unpublish_inactive-IsCoherent :
    (now : ℕ) (s : State) → IsCoherent s → IsCoherent (unpublish_inactive now s)
unfolding unpublish_inactive
unpublish_inactive-IsCoherent now s c = elim (Option-cases s.official) [
  | inl missing ↦ ground arith
  | inr (o, there) ↦
      let t = record s { official = some (record o { status = unpublished }) } in
      ground (arith, save_draft-IsCoherent now true (record s.draft { status = unpublished }) t)
]

republish-IsCoherent :
    (now : ℕ) (draft : Bool) (s : State) → IsCoherent s → IsCoherent (republish now draft s)
unfolding republish
republish-IsCoherent now draft s c = ground (arith, make_official-IsCoherent s)

take_back-IsCoherent :
    (now : ℕ) (s t : State)
    → IsCoherent s
    → s.draft.status ≡ reviewed
    → take_back now s ≡ some t
    → IsCoherent t
unfolding take_back unpublish_official
take_back-IsCoherent now s t c r e = elim (Option-cases s.official) [
  | inl missing ↦ ground arith
  | inr (o, there) ↦
      let u = record s { official = some (record o { status = unpublished }) } in
      ground (arith, save_draft-IsCoherent now true (record s.draft { status = unpublished }) u)
]

update_course-IsCoherent :
    (now : ℕ) (draft changed : Bool) (s : State)
    → IsCoherent s
    → IsCoherent (update_course now draft changed s)
unfolding update_course
update_course-IsCoherent now draft changed s c =
    let s' = republish now draft s in
    let c' = republish-IsCoherent now draft s c in
    elim (Option-cases (take_back now s')) [
      | inl failed ↦ ground arith
      | inr (t, e) ↦
          ground (arith, λ (r : s'.draft.status ≡ reviewed). take_back-IsCoherent now s' t c' r e)
    ]

-- A request that comes with an event assigns fields only.
abbrev pub IsProper : Event → Type 0
IsProper (edit request) = IsFieldUpdate request.assign
IsProper _ = Unit

step-IsCoherent :
    (now days : ℕ) (event : Event) (s : State)
    → IsProper event
    → IsCoherent s
    → IsCoherent (step now days event s)
unfolding step publish_live
step-IsCoherent now days (edit request) s f c = update-IsCoherent now days request s f c
step-IsCoherent now days go_live s f c = ground (arith, publish-IsCoherent now true s c)
step-IsCoherent now days unpublish s f c = unpublish_inactive-IsCoherent now s c
step-IsCoherent now days (course_edit draft changed) s f c =
    update_course-IsCoherent now draft changed s c

-- From a coherent state, and with serializers that assign neither the status nor the draft mark,
-- whatever happens to a course run, its official version stays what the status of the draft says:
-- of the same status beside a reviewed or published draft, and unpublished or absent beside any
-- other.
pub run_events-IsCoherent :
    (days : ℕ) (events : List (ℕ × Event)) (s : State)
    → All (λ e. IsProper e.1) events
    → IsCoherent s
    → IsCoherent (run_events days events s)
unfolding run_events
run_events-IsCoherent days [] s proper c = c
run_events-IsCoherent days ((now, event) ∷ events) s proper c =
    run_events-IsCoherent days events (step now days event s) proper.1
      (step-IsCoherent now days event s proper.0 c)
