-- ===== src/Course/Creation/Created.antt =====
-- What a course that was created is like: CourseViewSet.create
-- (course_discovery/apps/api/v1/views/courses.py).
use Prim.Native.String.{◌++◌ as append}
use course_discovery_ed_uhk.Course.Creation.FirstRun.{IsBegun, same_course}
use course_discovery_ed_uhk.Base.{String, ◌≡◌, true, false, some, [], ◌∷◌, map}
use course_discovery_ed_uhk.Course.Creation.{
  Course, CourseType, Catalog, contains, CourseData, get_course_key, new_course,
}

-- What is added to the catalogue for a draft as it is first saved, and what was not there before.
pub record IsSaved (fields : CourseData) (base : Course) (old new : Catalog) : Type 0 where
  pub course : Course
  pub same : same_course course base ≡ course
  pub drafts : new.drafts ≡ course ∷ old.drafts
  pub slugs : new.url_slugs ≡ course.url_slug ∷ old.url_slugs
  pub new_key : contains course.key (map (λ c. c.key) old.drafts) ≡ false
  pub new_slug : contains course.url_slug old.url_slugs ≡ false
  pub begun : IsBegun fields.course_run old.drafts course

-- The organization exists, the key is free among the official courses, and what is saved is of them.
pub record IsCreated (fields : CourseData) (old new : Catalog) : Type 0 where
  pub org : String
  pub number : String
  pub title : String
  pub slug : String
  pub course_type : CourseType
  pub asked :
      (fields.org ≡ some org) × ((fields.number ≡ some number) × (fields.title ≡ some title))
  pub known : contains org old.organizations ≡ true
  pub not_official : contains (get_course_key org number) old.official_keys ≡ false
  pub saved : IsSaved fields (new_course fields title org number slug course_type) old new
  pub key_is : saved.course.key ≡ append (append org "+") number
  pub title_is : saved.course.title ≡ title
  pub type_is : saved.course.type ≡ course_type.uuid
  pub owned : saved.course.authoring_organizations ≡ org ∷ []
  pub edited : saved.course.editors ≡ fields.user ∷ []
