-- ===== src/Examples/Creation.antt =====
-- An example for the creation of a course with its first run.
use course_discovery_ed_uhk.Base.{true, false, not, none, some, [], ◌∷◌, ◌==◌, string_eq}
use course_discovery_ed_uhk.Run.{audit, verified}
use course_discovery_ed_uhk.Course.Creation.{
  Response, created, bad_request, Catalog, CourseData, Env, RunData,
}

abbrev env : Env
env = record {
  is_course_number = λ number. not (number == "");
  is_slug = λ slug. true;
  slugify = λ taken title. title;
  deadline_days = 10;
}

abbrev catalog : Catalog
catalog = record {
  organizations = "edX" ∷ [];
  course_types = record { uuid = "va"; entitlement_types = verified ∷ [] } ∷ [];
  official_keys = [];
  url_slugs = [];
  drafts = [];
  next_id = 1;
}

abbrev run : RunData
run = record {
  pacing_type = none;
  rerun = none;
  validated = some (λ pacing. record {
    key = "course-v1:edX+101+1T2020";
    pacing_type = pacing;
    end = some 9_000_000_000_000;
    tracks = some verified ∷ some audit ∷ [];
    seats = [];
    language = none;
    min_effort = none;
    max_effort = none;
    weeks_to_complete = none;
    staff = [];
    transcript_languages = [];
  });
  studio_raises = false;
}

abbrev fields : CourseData
fields = record {
  title = some "Demo";
  number = some "101";
  org = some "edX";
  type = some "va";
  url_slug = "";
  prices = (verified, 4900) ∷ [];
  course_run = some run;
  user = "staff";
  is_valid = true;
}

abbrev catalog_of : Response Catalog → Catalog
catalog_of (created new) = new
catalog_of bad_request = catalog
