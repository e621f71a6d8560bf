-- ===== src/Loaders/Courses.antt =====
-- CoursesApiDataLoader (course_discovery/apps/course_metadata/data_loaders/api.py): how the body of a
-- course run updates its official version and its draft. The attributes of a row are a function
-- of their names, and an attribute reads what was assigned to it. Dates in a body are parsed and
-- `pacing` is in lower case; the video is the row that the address has.
pub mod Attributes
pub mod Settled
use course_discovery_ed_uhk.Base.{
  ℕ, String, Bool, true, false, ◌&&◌, ◌||◌, not, Option, none, some, List, [], ◌∷◌, ◌++◌, map,
  nat_beq, ◌==◌, string_eq, if◌then◌else◌, any, is_some, or_else,
}
use course_discovery_ed_uhk.Run.{Seat, verified, set_upgrade_deadline}
use course_discovery_ed_uhk.Run.SeatUpdate.{
  Result, ok, validation_error, type_error, overflow_error, multiple_objects_returned,
  subtract_deadline_delta,
}

pub data Value : Type 0 where
  null : Value
  text : String → Value
  moment : ℕ → Value
  flag : Bool → Value

abbrev pub same_value : Value → Value → Bool
same_value null null = true
same_value (text a) (text b) = a == b
same_value (moment a) (moment b) = nat_beq a b
same_value (flag a) (flag b) = if a then b else not b
same_value _ _ = false

abbrev pub of_text : Option String → Value
of_text none = null
of_text (some s) = text s

abbrev pub of_moment : Option ℕ → Value
of_moment none = null
of_moment (some t) = moment t

-- The keys that may be missing are optional; `hidden` is not null where it is there.
pub record Body : Type 0 where
  pub id : String
  pub start : Option ℕ
  pub end : Option ℕ
  pub enrollment_start : Option ℕ
  pub enrollment_end : Option ℕ
  pub hidden : Option Bool
  pub license : Option String
  pub name : Option String
  pub pacing : Option String
  pub short_description : Option String
  pub video : Option ℕ
  pub mobile_available : Option Bool

-- `get_pacing_type`
unfoldable pub get_pacing_type : Body → Value
get_pacing_type body = elim body.pacing [
  | none ↦ null
  | some pacing ↦
      if pacing == "instructor"
      then text "instructor_paced"
      else if pacing == "self"
      then text "self_paced"
      else null
]

abbrev pub or_false : Option Bool → Value
or_false none = flag false
or_false (some b) = flag b

-- `format_course_run_data` without a course
unfoldable pub format_course_run_data : (uses_publisher : Bool) → Body → List (String × Value)
unfolding get_pacing_type
format_course_run_data uses_publisher body =
    let defaults =
      ("key", text body.id)
      ∷ ("start", of_moment body.start)
      ∷ ("end", of_moment body.end)
      ∷ ("enrollment_start", of_moment body.enrollment_start)
      ∷ ("enrollment_end", of_moment body.enrollment_end)
      ∷ ("hidden", or_false body.hidden)
      ∷ ("license", text (elim body.license [ none ↦ "" | some license ↦ license ]))
      ∷ ("title_override", of_text body.name)
      ∷ ("pacing_type", get_pacing_type body)
      ∷ [] in
    if uses_publisher
    then defaults
    else defaults
      ++ (("short_description_override", of_text body.short_description)
          ∷ ("video", of_moment body.video)
          ∷ ("status", text "published")
          ∷ ("mobile_available", or_false body.mobile_available)
          ∷ [])

abbrev pub Attributes : Type 0
Attributes = String → Value

abbrev pub set_attribute : String → Value → Attributes → Attributes
set_attribute name value attributes = λ n. if n == name then value else attributes n

-- The loop of `_update_instance`: the attributes afterwards, and `updated`.
unfoldable pub update_attributes : List (String × Value) → Attributes → Attributes × Bool
update_attributes [] attributes = (attributes, false)
update_attributes ((name, value) ∷ fields) attributes =
    let same = same_value (attributes name) value in
    let (attributes', updated) =
      update_attributes fields (if same then attributes else set_attribute name value attributes) in
    (attributes', not same || updated)

pub record Instance : Type 0 where
  pub attributes : Attributes
  pub seats : List Seat

pub data Effect : Type 0 where
  saved : (draft : Bool) → Effect
  pushed_to_ecommerce : Effect

-- `_update_instance`: the instance afterwards, and its save
unfoldable pub update_instance :
    Bool → List (String × Value) → Option Instance → Option Instance × List Effect
unfolding update_attributes
update_instance draft fields none = (none, [])
update_instance draft fields (some instance_) =
    let (attributes, updated) = update_attributes fields instance_.attributes in
    (some (record instance_ { attributes = attributes }), if updated then saved draft ∷ [] else [])

-- `_update_verified_deadline_for_course_run`: the seats afterwards, or OverflowError
unfoldable pub update_verified_deadline : ℕ → Value → List Seat → Option (List Seat)
update_verified_deadline days null seats = some seats
update_verified_deadline days (text _) seats = some seats
update_verified_deadline days (flag _) seats = some seats
update_verified_deadline days (moment end) seats =
    if any (λ seat. seat.type == verified) seats
    then elim (subtract_deadline_delta (some end) days) [
      | ok deadline ↦ some (
          map
            (λ seat.
              if seat.type == verified then set_upgrade_deadline (some deadline) seat else seat)
            seats)
      | validation_error ↦ none
      | type_error ↦ none
      | overflow_error ↦ none
      | multiple_objects_returned ↦ none
    ]
    else some seats

unfoldable pub update_deadlines : ℕ → Option Instance → Option (Option Instance)
unfolding update_verified_deadline
update_deadlines days none = some none
update_deadlines days (some instance_) =
    elim (update_verified_deadline days (instance_.attributes "end") instance_.seats) [
      | none ↦ none
      | some seats ↦ some (some (record instance_ { seats = seats }))
    ]

-- The two rows afterwards, what was done, and whether an exception was raised.
pub record Outcome : Type 0 where
  pub official : Option Instance
  pub draft : Option Instance
  pub effects : List Effect
  pub raised : Bool

-- `validated_data.get(name)`
abbrev pub get : List (String × Value) → String → Option Value
get [] name = none
get ((n, value) ∷ fields) name = if name == n then some value else get fields name

abbrev pub get_or_null : List (String × Value) → String → Value
get_or_null fields name = elim (get fields name) [ none ↦ null | some value ↦ value ]

abbrev pub has_override : Instance → Bool
has_override run = any (λ seat. is_some seat.upgrade_deadline_override) run.seats

-- What follows where the end has changed; `run` is the draft, or else the official version.
unfoldable pub end_updated :
    ℕ → Instance → Option Instance → Option Instance → List Effect → Outcome
unfolding update_deadlines
end_updated days run official draft effects = elim (update_deadlines days official) [
  | none ↦ record { official = official; draft = draft; effects = effects; raised = true }
  | some official' ↦ elim (update_deadlines days draft) [
    | none ↦ record { official = official'; draft = draft; effects = effects; raised = true }
    | some draft' ↦ record {
      official = official';
      draft = draft';
      effects =
          effects
          ++ (if not (has_override run) && is_some official then pushed_to_ecommerce ∷ [] else []);
      raised = false;
    }
  ]
]

-- `update_course_run`, which is called with one row at least. The overrides of the seats are not
-- changed on the way.
unfoldable pub update_course_run :
    ℕ → List (String × Value) → Option Instance → Option Instance → Outcome
unfolding update_instance end_updated
update_course_run days validated_data official draft = elim (or_else draft official) [
  | none ↦ record { official = official; draft = draft; effects = []; raised = true }
  | some run ↦
      let (official', official_effects) = update_instance false validated_data official in
      let (draft', draft_effects) = update_instance true validated_data draft in
      if same_value (get_or_null validated_data "end") (run.attributes "end")
      then record {
        official = official';
        draft = draft';
        effects = official_effects ++ draft_effects;
        raised = false;
      }
      else end_updated days run official' draft' (official_effects ++ draft_effects)
]
