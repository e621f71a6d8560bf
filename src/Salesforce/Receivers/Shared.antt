-- ===== src/Salesforce/Receivers/Shared.antt =====
-- The two versions of a course are one object in Salesforce
-- (course_discovery/apps/course_metadata/signals.py).
use course_discovery_ed_uhk.Base.{String, ◌≡◌, Bool, Option, none, some, if◌then◌else◌}
use course_discovery_ed_uhk.Salesforce.{Course, Util, State, Call, returned, raised}
use course_discovery_ed_uhk.Salesforce.Keeps.{Keeps}
use course_discovery_ed_uhk.Salesforce.Objects.{create_course, update_course}
use course_discovery_ed_uhk.Salesforce.Receivers.{Saved, saved, stopped, on_official}

-- The official version and the draft are known under the same id.
abbrev pub Shares : Saved → Type 0
Shares (saved instance s) = instance.salesforce_id ≡ s.course.salesforce_id
Shares (stopped e instance s) = Unit

record HasId (id : String) (s : State) : Type 0 where
  id_is : s.course.salesforce_id ≡ some id

-- The official version after the draft was created, with the id that the draft has got.
abbrev pub after_creation : Course → Call → Saved
after_creation instance (returned t) =
    saved (record instance { salesforce_id = t.course.salesforce_id }) t
after_creation instance (raised e t) = stopped e instance t

-- What a save does by the id of the draft: without one the draft is created, and nothing else is sent;
-- with one the official version takes it, and is sent as an update where there is something new.
abbrev pub IsOneObject : Util → Bool → Course → State → Option String → Saved → Type 0
IsOneObject util requires_update instance s none outcome =
    outcome ≡ after_creation instance (create_course util s)
IsOneObject util requires_update instance s (some id) outcome =
    let official = record instance { salesforce_id = some id } in
    outcome ≡ (
      if requires_update
      then on_official s.course (update_course util (record s { course = official }))
      else saved official s)
