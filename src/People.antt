-- ===== src/People.antt =====
-- People: their nodes on the marketing site (MarketingSitePeople in
-- course_discovery/apps/course_metadata/people.py), and the command that deletes duplicates. The marketing
-- site is a parameter. What is logged is left out.
pub mod Duplicates
pub mod Merged
pub mod Deleted
use course_discovery_ed_uhk.Base.{
  ℕ, String, Bool, true, false, Option, none, some, List, [], ◌∷◌, if◌then◌else◌,
}

pub record PersonNode : Type 0 where
  pub field_person_slug : String
  pub title : String
  pub status : ℕ

pub record Person : Type 0 where
  pub id : ℕ
  pub partner : String
  pub uuid : String
  pub slug : String
  pub full_name : String
  pub published : Bool

pub data Request : Type 0 where
  get_node : (uuid : String) → Request
  post_node : (uuid : String) → PersonNode → Request
  put_node : (node_id : String) → PersonNode → Request
  delete_node_request : (node_id : String) → Request

-- Whether the credentials are configured, and what the site answers: the ids of the nodes with a
-- uuid or a failure, and whether it creates and updates.
pub record Site : Type 0 where
  pub has_credentials : Bool
  pub nodes : String → Option (List String)
  pub creates : Bool
  pub updates : Bool

pub data SiteError : Type 0 where
  site_api_client person_to_marketing : SiteError

-- A value or an exception, and the requests that were sent, the last one first.
pub data Call (A : Type 0) : Type 0 where
  returned : A → List Request → Call A
  raised : SiteError → List Request → Call A

unfoldable pub get_node_data : Person → PersonNode
get_node_data person = record {
  field_person_slug = person.slug;
  title = person.full_name;
  status = if person.published then 1 else 0;
}

unfoldable pub first_id : List String → Option String
first_id [] = none
first_id (x ∷ xs) = some x

-- `_get_api_client` and `_get_node_id_from_uuid`
unfoldable pub get_node_id_from_uuid : Site → String → Call (Option String)
unfolding first_id
get_node_id_from_uuid site uuid =
    if site.has_credentials
    then elim (site.nodes uuid) [
      | none ↦ raised person_to_marketing (get_node uuid ∷ [])
      | some ids ↦ returned (first_id ids) (get_node uuid ∷ [])
    ]
    else raised site_api_client []

abbrev pub answered : Bool → List Request → Call Bool
answered true sent = returned true sent
answered false sent = raised person_to_marketing sent

-- The node that exists is updated, and where there is none, one is created.
unfoldable pub update_or_publish_person : Site → Person → Call Bool
unfolding get_node_data get_node_id_from_uuid
update_or_publish_person site person = elim (get_node_id_from_uuid site person.uuid) [
  | returned (some node_id) sent ↦
      answered site.updates (put_node node_id (get_node_data person) ∷ sent)
  | returned none sent ↦ answered site.creates (post_node person.uuid (get_node_data person) ∷ sent)
  | raised e sent ↦ raised e sent
]

-- What the site answers to the deletion of a node is not looked at.
unfoldable pub delete_person_by_uuid : Site → String → Call Bool
unfolding get_node_id_from_uuid
delete_person_by_uuid site uuid = elim (get_node_id_from_uuid site uuid) [
  | returned (some node_id) sent ↦ returned true (delete_node_request node_id ∷ sent)
  | returned none sent ↦ returned false sent
  | raised e sent ↦ raised e sent
]

-- With no id there is nothing to delete; the answer of the site is not looked at.
unfoldable pub delete_person : Site → (node_id : Option String) → Call Bool
delete_person site none =
    if site.has_credentials then returned false [] else raised site_api_client []
delete_person site (some node_id) =
    if site.has_credentials
    then returned true (delete_node_request node_id ∷ [])
    else raised site_api_client []
