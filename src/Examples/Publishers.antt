-- ===== src/Examples/Publishers.antt =====
-- An example for the marketing site.
use course_discovery_ed_uhk.Base.{
  ◌≡◌, refl, true, false, not, ◌&&◌, some, none, [], ◌∷◌, any, ◌==◌, string_eq,
}
use course_discovery_ed_uhk.Run.{published, unpublished, status_eq}
use course_discovery_ed_uhk.Publishers.{Site, requests, is_write}
use course_discovery_ed_uhk.Publishers.CourseRuns.{CourseRun, publish_obj}
use course_discovery_ed_uhk.Publishers.Writes.{publish_obj_writes_iff}

abbrev run : CourseRun
run = record {
  key = "course-v1:edX+DemoX+1T2020";
  uuid = "u1";
  title = "Demo";
  slug = "demo";
  status = published;
}

-- A site that has one node, and takes each request.
abbrev site : Site
site = record {
  answer = λ _ _. record { is_expected = true; ids = "7" ∷ []; new_id = "8"; delete_path = none };
  user_id = 1;
}

abbrev previous : CourseRun
previous = record run { status = unpublished }

publish_obj_writes_iff_example :
    any is_write (requests (publish_obj site true false run (some previous) []))
    ≡ not ((run.status == previous.status) && (run.slug == previous.slug))
publish_obj_writes_iff_example =
    publish_obj_writes_iff site (λ _ _. refl) (λ _ _. refl) true false run previous "7" [] refl refl
