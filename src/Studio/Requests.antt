-- ===== src/Studio/Requests.antt =====
-- What StudioAPI (course_discovery/apps/api/utils.py) sends to Studio for a course run. The answers of
-- Studio are left out, but for a failure to take the image, which is not passed on.
use course_discovery_ed_uhk.Base.{
  ℕ, String, Bool, true, false, ◌||◌, Option, none, some, List, [], ◌∷◌, ◌++◌, if◌then◌else◌,
  is_some,
}

-- A course run with the parts of its key, the editors of its course, and the image of its course.
pub record CourseRun : Type 0 where
  pub key : String
  pub org : String
  pub number : String
  pub run : String
  pub title : String
  pub pacing_type : Option String
  pub start : Option ℕ
  pub end : Option ℕ
  pub editors : List String
  pub image : Option String

pub record Schedule : Type 0 where
  pub start : Option ℕ
  pub end : Option ℕ

-- The JSON of a course run; each member of the team is an instructor.
pub record StudioData : Type 0 where
  pub title : String
  pub org : String
  pub number : String
  pub run : String
  pub team : List String
  pub pacing_type : Option String
  pub schedule : Option Schedule

abbrev pub when_creating {ℓ} : {A : Type ℓ} → Bool → Option A → Option A
when_creating creating value = if creating then value else none

abbrev pub with_user : Option String → List String → List String
with_user none editors = editors
with_user (some user) editors = editors ++ user ∷ []

-- `generate_data_for_studio_api`: the dates and the pacing are sent on creation only.
unfoldable pub generate_data_for_studio_api :
    CourseRun → (creating : Bool) → Option String → StudioData
generate_data_for_studio_api course_run creating user =
    let start = when_creating creating course_run.start in
    let end = when_creating creating course_run.end in
    record {
      title = course_run.title;
      org = course_run.org;
      number = course_run.number;
      run = course_run.run;
      team = with_user user course_run.editors;
      pacing_type = when_creating creating course_run.pacing_type;
      schedule =
          if is_some start || is_some end then some (record { start = start; end = end }) else none;
    }

pub data StudioRequest : Type 0 where
  post_rerun : (old_course_run_key : String) → StudioData → StudioRequest
  post_course_run : StudioData → StudioRequest
  patch_course_run : (key : String) → StudioData → StudioRequest
  post_image : (key : String) → (card_image : String) → StudioRequest

-- `push_to_studio`, with the three methods that it calls
unfoldable pub push_to_studio :
    CourseRun
    → (create : Bool) → (old_course_run_key : Option String) → Option String
    → StudioRequest
unfolding generate_data_for_studio_api
push_to_studio course_run true (some old_key) user =
    post_rerun old_key (generate_data_for_studio_api course_run true user)
push_to_studio course_run true none user =
    post_course_run (generate_data_for_studio_api course_run true user)
push_to_studio course_run false old_key user =
    patch_course_run course_run.key (generate_data_for_studio_api course_run false none)

unfoldable pub update_course_run_image_in_studio : CourseRun → List StudioRequest
update_course_run_image_in_studio course_run = elim course_run.image [
  | none ↦ []
  | some image ↦ post_image course_run.key image ∷ []
]
