-- ===== src/Salesforce/Receivers.antt =====
-- The receivers that keep Salesforce in step (course_discovery/apps/course_metadata/signals.py), with
-- requires_salesforce_update and populate_official_with_existing_draft
-- (course_discovery/apps/course_metadata/salesforce.py). In the state stand the draft versions; the
-- official version that is saved stands beside it. A receiver goes through all of a save, and stops
-- where a call raises. Whether an attribute has changed is a parameter.
pub mod Shared
pub mod Runs
use course_discovery_ed_uhk.Base.{
  String, Bool, true, false, ◌&&◌, not, Option, none, some, List, [], ◌∷◌, ◌==◌, string_eq, any,
  is_some, or_else, if◌then◌else◌,
}
use course_discovery_ed_uhk.Salesforce.{
  Course, CourseRun, Util, State, Call, Error, returned, raised, and_then,
}
use course_discovery_ed_uhk.Salesforce.Objects.{
  has_id, create_publisher_organization, create_course, create_course_run,
  update_publisher_organization, update_course, update_course_run,
}

pub data Source : Type 0 where
  organization course course_run : Source

unfoldable pub salesforce_fields : Source → List String
salesforce_fields organization = "name" ∷ "key" ∷ []
salesforce_fields course = "title" ∷ "key" ∷ []
salesforce_fields course_run =
    "start" ∷ "end" ∷ "status" ∷ "title" ∷ "go_live_date" ∷ "key" ∷ "has_ofac_restrictions" ∷ []

-- `attributes` are the keys of the instance's `__dict__`.
unfoldable pub requires_salesforce_update :
    Source → (attributes : List String) → (did_change : String → Bool) → Bool
unfolding salesforce_fields
requires_salesforce_update source attributes did_change =
    any (λ attr. any (λ f. f == attr) (salesforce_fields source) && did_change attr) attributes

abbrev pub when : Bool → (State → Call) → State → Call
when test call s = if test then call s else returned s

unfoldable pub update_or_create_salesforce_organization :
    Option Util → (created requires_update : Bool) → State → Call
unfolding create_publisher_organization update_publisher_organization and_then
update_or_create_salesforce_organization none created requires_update s = returned s
update_or_create_salesforce_organization (some util) created requires_update s =
    and_then
      (when (is_some s.organization && not (has_id s.organization))
        (create_publisher_organization util) s)
      (when (not created && requires_update) (update_publisher_organization util))

unfoldable pub authoring_organizations_changed :
    Option Util → (action : String) → (draft : Bool) → State → Call
unfolding create_course
authoring_organizations_changed none action draft s = returned s
authoring_organizations_changed (some util) action draft s =
    when ((action == "post_add") && not (is_some s.course.salesforce_id) && draft)
      (create_course util) s

-- Whether the draft version was to be created, and what the calls left.
pub data Populated : Type 0 where
  populated : (created_in_salesforce : Bool) → Call → Populated

-- `populate_official_with_existing_draft`, up to the assignment of the id
unfoldable pub populate_official_with_existing_draft :
    (Option String) → (create : State → Call) → State → Populated
populate_official_with_existing_draft none create s = populated true (create s)
populate_official_with_existing_draft (some id) create s = populated false (returned s)

-- The official course after the save, with what the call left.
pub data Saved : Type 0 where
  saved : Course → State → Saved
  stopped : Error → Course → State → Saved

-- A call on the official course, with the draft put back.
unfoldable pub on_official : (draft : Course) → Call → Saved
on_official draft (returned t) = saved t.course (record t { course = draft })
on_official draft (raised e t) = stopped e t.course (record t { course = draft })

unfoldable pub update_official : Util → Bool → Course → State → Saved
unfolding on_official update_course
update_official util true instance s =
    on_official s.course (update_course util (record s { course = instance }))
update_official util false instance s = saved instance s

abbrev pub with_id : Option String → Course → Course
with_id id instance = record instance { salesforce_id = or_else id instance.salesforce_id }

-- The id is assigned where the draft has one, and then comes the update where nothing was created.
unfoldable pub after_populating : Util → (requires_update : Bool) → Course → Populated → Saved
unfolding update_official
after_populating util requires_update instance (populated created_in_salesforce (raised e t)) =
    stopped e instance t
after_populating util requires_update instance (populated created_in_salesforce (returned t)) =
    update_official util (not created_in_salesforce && requires_update)
      (with_id t.course.salesforce_id instance) t

-- `draft_is_ready` tells that there is a draft version with an authoring organization.
unfoldable pub save_official :
    Util → (draft_is_ready requires_update : Bool) → Course → State → Saved
unfolding populate_official_with_existing_draft after_populating update_official create_course
save_official util draft_is_ready requires_update instance s =
    if not (is_some instance.salesforce_id) && draft_is_ready
    then after_populating util requires_update instance
        (populate_official_with_existing_draft s.course.salesforce_id (create_course util) s)
    else update_official util requires_update instance s

unfoldable pub update_or_create_salesforce_course :
    Option Util
    → (has_organization created draft draft_is_ready requires_update : Bool) → Course
    → State
    → Saved
unfolding save_official
update_or_create_salesforce_course none has_organization created draft draft_is_ready
      requires_update instance s =
    saved instance s
update_or_create_salesforce_course (some util) has_organization created draft draft_is_ready
      requires_update instance s =
    if has_organization && (not created && not draft)
    then save_official util draft_is_ready requires_update instance s
    else saved instance s
