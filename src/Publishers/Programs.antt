-- ===== src/Publishers/Programs.antt =====
-- ProgramMarketingSitePublisher (course_discovery/apps/course_metadata/publishers.py). The slug of the
-- title and the machine name of the type, which come from other libraries, are fields.
use Prim.Native.String.{◌++◌}
use course_discovery_ed_uhk.Base.{
  String, Bool, false, ◌&&◌, Option, none, some, List, [], ◌∷◌, ◌==◌, string_eq, if◌then◌else◌, any,
  nat_beq, ℕ,
}
use course_discovery_ed_uhk.Publishers.{
  Node, Request, Site, Step, done, and_then, node_id, create_node, edit_node, get_and_delete_alias,
  Alias, update_node_alias,
}

-- A status is told by its number, and `is_active` is what it says.
pub record Program : Type 0 where
  pub uuid : String
  pub title : String
  pub title_slug : String
  pub type_name : String
  pub type_slug : String
  pub machine_type : String
  pub marketing_slug : String
  pub status : ℕ
  pub is_active : Bool

abbrev pub types_to_publish : List String
types_to_publish = "XSeries" ∷ "MicroMasters" ∷ "Professional Certificate" ∷ "Masters" ∷ []

unfoldable pub serialize_obj : Site → Program → Node
serialize_obj site program = record {
  lookup = program.uuid;
  author = site.user_id;
  status = program.is_active;
  title = program.title;
  type = program.machine_type;
  uuid = some program.uuid;
}

abbrev pub alias : Program → Alias
alias program = record {
  alias = program.type_slug ++ "/" ++ program.marketing_slug;
  slug = program.marketing_slug;
}

abbrev pub alias_of : Option Program → Option Alias
alias_of none = none
alias_of (some program) = some (alias program)

-- `trigger_fields`; a type is told by its slug
abbrev pub has_fields_of : Option Program → Program → Bool
has_fields_of none program = false
has_fields_of (some previous) program =
    (program.marketing_slug == previous.marketing_slug)
    && nat_beq program.status previous.status
    && (program.title == previous.title)
    && (program.type_slug == previous.type_slug)

unfoldable pub find_node : Site → Program → Option Program → List Request → Step (Option String)
unfolding node_id
find_node site program none sent = done none sent
find_node site program (some _) sent = node_id site program.uuid sent

-- The node that was created or edited, if one was; the uuid of a node is not edited.
unfoldable pub publish_node :
    Site → Program → Option Program → Option String → List Request → Step (Option String)
unfolding and_then create_node edit_node serialize_obj
publish_node site program previous none sent =
    and_then (create_node site (serialize_obj site program) sent) (λ id sent'. done (some id) sent')
publish_node site program previous (some id) sent =
    if has_fields_of previous program
    then done none sent
    else and_then (edit_node site id (record (serialize_obj site program) { uuid = none }) sent)
        (λ _ sent'. done (some id) sent')

unfoldable pub publish_alias :
    Site → Program → Option Program → Option String → List Request → Step {0} Unit
unfolding and_then get_and_delete_alias update_node_alias
publish_alias site program previous none sent = done tt sent
publish_alias site program previous (some id) sent =
    and_then (get_and_delete_alias site program.title_slug sent)
      (λ _ sent'. update_node_alias site (alias program) id (alias_of previous) sent')

unfoldable pub publish_obj : Site → Program → Option Program → List Request → Step {0} Unit
unfolding and_then find_node publish_node publish_alias
publish_obj site program previous sent =
    if any (λ name. program.type_name == name) types_to_publish
    then and_then (find_node site program previous sent) (λ found sent1.
      and_then (publish_node site program previous found sent1)
        (λ changed sent2. publish_alias site program previous changed sent2))
    else done tt sent
