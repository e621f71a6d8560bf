-- ===== src/Course/Creation.antt =====
-- CourseViewSet.create (course_discovery/apps/api/v1/views/courses.py) with CourseRunViewSet.create_run_helper
-- (course_discovery/apps/api/v1/views/course_runs.py), on the draft courses of one partner. What the
-- serializers make of the data, which env are valid and whether Studio raises are fields of a
-- request. The transaction is rolled back where the response is not 201, so that an error carries
-- nothing; what Studio was sent is in Studio/Requests.
pub mod Created
pub mod Responses
pub mod Details
pub mod FirstRun
use course_discovery_ed_uhk.Base.{
  ℕ, String, Bool, true, false, ◌&&◌, not, Option, none, some, List, [], ◌∷◌, ◌++◌, map, ◌==◌,
  string_eq, any, keep, first, is_some, or_else, if◌then◌else◌,
}
use course_discovery_ed_uhk.Run.{Seat}
use course_discovery_ed_uhk.Run.SeatUpdate.{
  Result, ok, validation_error, type_error, overflow_error, multiple_objects_returned, price_of,
  update_or_create_seats,
}
use Prim.Native.String.{◌++◌ as append}

-- Either a response of 201 with what was written, or one of 400.
pub data Response (A : Type 0) : Type 0 where
  created : A → Response A
  bad_request : Response A

abbrev pub and_then : {A B : Type 0} → Response A → (A → Response B) → Response B
and_then bad_request next = bad_request
and_then (created a) next = next a

abbrev pub when : {A : Type 0} → Bool → Response A → Response A
when true next = next
when false next = bad_request

abbrev pub present : {A : Type 0} → Option A → Response A
present none = bad_request
present (some a) = created a

pub record CourseRun : Type 0 where
  pub key : String
  pub pacing_type : String
  pub end : Option ℕ
  pub tracks : List (Option String)
  pub seats : List Seat
  pub language : Option String
  pub min_effort : Option ℕ
  pub max_effort : Option ℕ
  pub weeks_to_complete : Option ℕ
  pub staff : List String
  pub transcript_languages : List String

pub record Course : Type 0 where
  pub key : String
  pub title : String
  pub type : String
  pub url_slug : String
  pub authoring_organizations : List String
  pub entitlements : List (String × ℕ)
  pub editors : List String
  pub runs : List CourseRun
  pub canonical_course_run : Option String

-- The type of a course, with the slugs of its entitlements.
pub record CourseType : Type 0 where
  pub uuid : String
  pub entitlement_types : List String

pub record Catalog : Type 0 where
  pub organizations : List String
  pub course_types : List CourseType
  pub official_keys : List String
  pub url_slugs : List String
  pub drafts : List Course
  pub next_id : ℕ

abbrev pub contains : String → List String → Bool
contains x xs = any (λ y. y == x) xs

-- `validated` is the run that the serializer saves, with the pacing type that it is given.
pub record RunData : Type 0 where
  pub pacing_type : Option String
  pub rerun : Option String
  pub validated : Option (String → CourseRun)
  pub studio_raises : Bool

-- Any run of the drafts, by its key; each run is taken to have its draft.
unfoldable pub find_run : String → List Course → Option CourseRun
find_run key [] = none
find_run key (c ∷ cs) = or_else (first (keep (λ r. r.key == key) c.runs)) (find_run key cs)

unfoldable pub set_seats : CourseRun → Result (List Seat × ℕ) → Response (CourseRun × ℕ)
set_seats run (ok (seats, next)) = created (record run { seats = seats }, next)
set_seats run validation_error = bad_request
set_seats run type_error = bad_request
set_seats run overflow_error = bad_request
set_seats run multiple_objects_returned = bad_request

unfoldable pub with_seats :
    (deadline_days : ℕ) → List (String × ℕ) → ℕ → CourseRun → Response (CourseRun × ℕ)
unfolding set_seats update_or_create_seats
with_seats days prices next run =
    set_seats run (update_or_create_seats days run.end none run.tracks prices next run.seats)

-- The run to rerun: the one that was asked for, else the canonical run, if there was one.
abbrev pub old_course_run_key : (canonical rerun : Option String) → Option String
old_course_run_key canonical rerun = or_else rerun canonical

abbrev pub copy_from : CourseRun → CourseRun → CourseRun
copy_from old run = record run {
  language = old.language;
  min_effort = old.min_effort;
  max_effort = old.max_effort;
  weeks_to_complete = old.weeks_to_complete;
  staff = old.staff;
  transcript_languages = old.transcript_languages;
}

unfoldable pub copy_old_run : Option String → List Course → CourseRun → Response CourseRun
unfolding find_run
copy_old_run none courses run = created run
copy_old_run (some key) courses run =
    and_then (present (find_run key courses)) (λ old. created (copy_from old run))

-- The course with its new run, which is the canonical one if it is the first.
abbrev pub with_run : CourseRun → Course → Course
with_run run course = record course {
  runs = course.runs ++ run ∷ [];
  canonical_course_run = or_else course.canonical_course_run (some run.key);
}

abbrev pub pacing_or_default : Option String → String
pacing_or_default none = "instructor_paced"
pacing_or_default (some pacing) = pacing

-- The course of the run stands apart from the other drafts.
unfoldable pub create_run_helper :
    (deadline_days : ℕ)
    → List (String × ℕ)
    → RunData
    → (others : List Course) → (next : ℕ) → Course
    → Response (Course × ℕ)
unfolding with_seats copy_old_run
create_run_helper days prices fields others next course =
    and_then (present fields.validated) (λ save.
      let saved = save (pacing_or_default fields.pacing_type) in
      and_then (with_seats days prices next saved) (λ (run, next').
        let old_key = old_course_run_key course.canonical_course_run fields.rerun in
        and_then (copy_old_run old_key (with_run run course ∷ others) run)
          (λ copied. when (not fields.studio_raises) (created (with_run copied course, next')))))

pub record CourseData : Type 0 where
  pub title : Option String
  pub number : Option String
  pub org : Option String
  pub type : Option String
  pub url_slug : String
  pub prices : List (String × ℕ)
  pub course_run : Option RunData
  pub user : String
  pub is_valid : Bool

abbrev pub price_or_zero : Option ℕ → ℕ
price_or_zero none = 0
price_or_zero (some price) = price

-- The tests on env, the slug that the field makes of a title, and how many days before the end of a
-- run the upgrade to a seat ends.
pub record Env : Type 0 where
  pub is_course_number : String → Bool
  pub is_slug : String → Bool
  pub slugify : List String → String → String
  pub deadline_days : ℕ

abbrev pub get_course_key : (org number : String) → String
get_course_key org number = append (append org "+") number

-- A slug that is given is valid and free; without one, the field makes up a free one.
unfoldable pub choose_slug : Env → Catalog → (url_slug title : String) → Response String
choose_slug env catalog url_slug title =
    if url_slug == ""
    then created (env.slugify catalog.url_slugs title)
    else when (env.is_slug url_slug && not (contains url_slug catalog.url_slugs)) (created url_slug)

abbrev pub find_type : String → List CourseType → Option CourseType
find_type uuid types = first (keep (λ t. t.uuid == uuid) types)

-- The database refuses a second draft with the key, and a second row with the slug.
unfoldable pub save_course : Catalog → Course → ℕ → Response Catalog
save_course catalog course next =
    when
      (not (contains course.key (map (λ c. c.key) catalog.drafts))
        && not (contains course.url_slug catalog.url_slugs))
      (created (record catalog {
        drafts = course ∷ catalog.drafts;
        url_slugs = course.url_slug ∷ catalog.url_slugs;
        next_id = next;
      }))

unfoldable pub add_run :
    Env → List (String × ℕ) → Option RunData → Catalog → Course → Response (Course × ℕ)
unfolding create_run_helper
add_run env prices none catalog course = created (course, catalog.next_id)
add_run env prices (some run) catalog course =
    create_run_helper env.deadline_days prices run catalog.drafts catalog.next_id course

-- The draft as it is first saved.
unfoldable pub new_course : CourseData → (title org number slug : String) → CourseType → Course
new_course fields title org number slug course_type = record {
  key = get_course_key org number;
  title = title;
  type = course_type.uuid;
  url_slug = slug;
  authoring_organizations = org ∷ [];
  entitlements =
      map (λ mode. (mode, price_or_zero (price_of fields.prices mode)))
        course_type.entitlement_types;
  editors = fields.user ∷ [];
  runs = [];
  canonical_course_run = none;
}

unfoldable pub save_new : Env → CourseData → Catalog → Course → Response Catalog
unfolding add_run save_course
save_new env fields catalog course =
    and_then (add_run env fields.prices fields.course_run catalog course)
      (λ saved. save_course catalog saved.0 saved.1)

-- The number and the data are valid, and no official course has the key.
abbrev pub is_free : Env → CourseData → Catalog → (org number : String) → Bool
is_free env fields catalog org number =
    (env.is_course_number number && fields.is_valid)
    && not (contains (get_course_key org number) catalog.official_keys)

-- With all that is required, of an organization and a type that exist.
unfoldable pub create_checked :
    Env → CourseData → Catalog → (title number org : String) → CourseType → Response Catalog
unfolding choose_slug save_new new_course
create_checked env fields catalog title number org course_type =
    when (is_free env fields catalog org number) (
      and_then (choose_slug env catalog fields.url_slug title)
        (λ slug. save_new env fields catalog (new_course fields title org number slug course_type)))

unfoldable pub create : Env → CourseData → Catalog → Response Catalog
unfolding create_checked
create env fields catalog = and_then (present fields.title) (λ title.
    and_then (present fields.number) (λ number. and_then (present fields.org) (λ org.
      and_then (present fields.type) (λ type. when (contains org catalog.organizations) (
        and_then (present (find_type type catalog.course_types))
          (λ course_type. create_checked env fields catalog title number org course_type))))))

-- A run for a draft that is there, which is looked up by its key.
unfoldable pub create_run :
    Env → List (String × ℕ) → RunData → (course_key : Option String) → Catalog → Response Catalog
unfolding create_run_helper
create_run env prices fields course_key catalog = and_then (present course_key) (λ key.
    and_then (present (first (keep (λ c. c.key == key) catalog.drafts))) (λ course.
      let others = keep (λ c. not (c.key == key)) catalog.drafts in
      and_then (create_run_helper env.deadline_days prices fields others catalog.next_id course)
        (λ saved. created (record catalog { drafts = saved.0 ∷ others; next_id = saved.1 }))))
