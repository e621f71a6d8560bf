-- ===== src/Publishers/CourseRuns.antt =====
-- CourseRunMarketingSitePublisher (course_discovery/apps/course_metadata/publishers.py).
use Prim.Native.String.{◌++◌}
use course_discovery_ed_uhk.Base.{
  String, Bool, false, Option, none, some, List, ◌==◌, string_eq, if◌then◌else◌,
}
use course_discovery_ed_uhk.Run.{CourseRunStatus, published, status_eq}
use course_discovery_ed_uhk.Publishers.{
  Node, Request, Site, Step, done, and_then, node_id, create_node, edit_node, Alias,
  update_node_alias,
}

pub record CourseRun : Type 0 where
  pub key : String
  pub uuid : String
  pub title : String
  pub slug : String
  pub status : CourseRunStatus

unfoldable pub serialize_obj : Site → CourseRun → Node
serialize_obj site run = record {
  lookup = run.key;
  author = site.user_id;
  status = run.status == published;
  title = run.title;
  type = "course";
  uuid = none;
}

-- `alias` and `get_marketing_slug`
abbrev pub alias : CourseRun → Alias
alias run = record { alias = "course/" ++ run.slug; slug = run.slug }

abbrev pub has_status_of : Option CourseRun → CourseRun → Bool
has_status_of none run = false
has_status_of (some previous) run = run.status == previous.status

abbrev pub has_slug_of : Option CourseRun → CourseRun → Bool
has_slug_of none run = false
has_slug_of (some previous) run = run.slug == previous.slug

abbrev pub with_uuid : CourseRun → Node → Node
with_uuid run node = record node { uuid = some run.uuid }

-- The node to give an alias to: the one that is there, edited if the status has changed, or a new one
-- if the switch auto_course_about_page_creation is on.
unfoldable pub publish_node :
    Site
    → (auto_creation include_uuid : Bool) → CourseRun
    → Option CourseRun
    → Option String
    → List Request
    → Step (Option String)
unfolding serialize_obj and_then edit_node create_node
publish_node site auto_creation include_uuid run previous (some id) sent =
    if has_status_of previous run
    then done (some id) sent
    else and_then
        (edit_node site id
          (if include_uuid then with_uuid run (serialize_obj site run) else serialize_obj site run)
          sent)
        (λ _ sent'. done (some id) sent')
publish_node site auto_creation include_uuid run previous none sent =
    if auto_creation
    then and_then (create_node site (with_uuid run (serialize_obj site run)) sent)
        (λ id sent'. done (some id) sent')
    else done none sent

unfoldable pub publish_alias :
    Site → CourseRun → Option CourseRun → Option String → List Request → Step {0} Unit
unfolding update_node_alias
publish_alias site run previous none sent = done tt sent
publish_alias site run previous (some id) sent =
    if has_slug_of previous run
    then done tt sent
    else update_node_alias site (alias run) id none sent

unfoldable pub publish_obj :
    Site
    → (auto_creation include_uuid : Bool) → CourseRun
    → Option CourseRun
    → List Request
    → Step {0} Unit
unfolding and_then node_id publish_node publish_alias
publish_obj site auto_creation include_uuid run previous sent =
    and_then (node_id site run.key sent) (λ found sent1.
      and_then (publish_node site auto_creation include_uuid run previous found sent1)
        (λ id sent2. publish_alias site run previous id sent2))
