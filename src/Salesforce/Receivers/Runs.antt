-- ===== src/Salesforce/Receivers/Runs.antt =====
-- update_or_create_salesforce_course_run (course_discovery/apps/course_metadata/signals.py). In the state
-- stands the draft of the run, or the run itself where it is a draft. A run whose partner is not
-- found is passed over as one without a configuration.
use course_discovery_ed_uhk.Base.{
  Bool, true, false, ◌&&◌, not, Option, none, some, is_some, or_else, if◌then◌else◌,
}
use course_discovery_ed_uhk.Salesforce.{CourseRun, Util, State, Call, Error, returned, raised}
use course_discovery_ed_uhk.Salesforce.Objects.{create_course_run, update_course_run}
use course_discovery_ed_uhk.Salesforce.Receivers.{
  Populated, populated, populate_official_with_existing_draft,
}

-- The official run after the save, with what the call left.
pub data SavedRun : Type 0 where
  saved : CourseRun → State → SavedRun
  stopped : Error → CourseRun → State → SavedRun

-- A call on the official run, with the draft put back.
unfoldable pub on_official_run : (draft : CourseRun) → Call → SavedRun
on_official_run draft (returned t) = saved t.course_run (record t { course_run = draft })
on_official_run draft (raised e t) = stopped e t.course_run (record t { course_run = draft })

unfoldable pub update_official_run : Util → Bool → CourseRun → State → SavedRun
unfolding on_official_run update_course_run
update_official_run util true instance s =
    on_official_run s.course_run (update_course_run util (record s { course_run = instance }))
update_official_run util false instance s = saved instance s

unfoldable pub after_populating_run :
    Util → (requires_update : Bool) → CourseRun → Populated → SavedRun
unfolding update_official_run
after_populating_run util requires_update instance (populated created_in_salesforce (raised e t)) =
    stopped e instance t
after_populating_run util requires_update instance (populated created_in_salesforce (returned t)) =
    update_official_run util (not created_in_salesforce && requires_update)
      (record instance {
        salesforce_id = or_else t.course_run.salesforce_id instance.salesforce_id;
      })
      t

-- The draft is the run in the state.
unfoldable pub save_draft_run : Call → SavedRun
save_draft_run (returned t) = saved t.course_run t
save_draft_run (raised e t) = stopped e t.course_run t

unfoldable pub save_official_run :
    Util → (has_draft requires_update : Bool) → CourseRun → State → SavedRun
unfolding populate_official_with_existing_draft after_populating_run update_official_run
    create_course_run
save_official_run util has_draft requires_update instance s =
    if not (is_some instance.salesforce_id) && has_draft
    then after_populating_run util requires_update instance (
        populate_official_with_existing_draft s.course_run.salesforce_id (create_course_run util) s)
    else update_official_run util requires_update instance s

unfoldable pub update_or_create_salesforce_course_run :
    Option Util → (created draft has_draft requires_update : Bool) → CourseRun → State → SavedRun
unfolding save_draft_run save_official_run create_course_run
update_or_create_salesforce_course_run none created draft has_draft requires_update instance s =
    saved instance s
update_or_create_salesforce_course_run (some util) created draft has_draft requires_update instance
      s =
    if draft
    then save_draft_run (create_course_run util s)
    else if created
    then saved instance s
    else save_official_run util has_draft requires_update instance s
