-- ===== src/Publishers.antt =====
-- The marketing site publishers (course_discovery/apps/course_metadata/publishers.py). Drupal is a
-- parameter: what it answers to a request, after the requests before. A call gives its requests, the
-- last one first, and what it comes to. The text of the errors and the hidden fields of the forms
-- are left out.
pub mod CourseRuns
pub mod Programs
pub mod Writes
use course_discovery_ed_uhk.Base.{
  ℕ, String, Bool, true, false, ◌&&◌, ◌||◌, not, Option, none, some, List, [], ◌∷◌, ◌==◌, string_eq,
  if◌then◌else◌, nat_beq, any,
}

-- The JSON of a node; a uuid is written on creation only.
pub record Node : Type 0 where
  pub lookup : String
  pub author : ℕ
  pub status : Bool
  pub title : String
  pub type : String
  pub uuid : Option String

pub data Request : Type 0 where
  get_nodes : (lookup : String) → Request
  post_node : Node → Request
  put_node : (node_id : String) → Node → Request
  delete_node_at : (node_id : String) → Request
  get_alias_list : (slug : String) → Request
  get_form : (url : String) → Request
  post_delete : (path : String) → Request
  post_alias : (alias source : String) → Request

-- Whether a request can change the site.
abbrev pub is_write : Request → Bool
is_write (get_nodes _) = false
is_write (get_alias_list _) = false
is_write (get_form _) = false
is_write _ = true

-- Whether the status is the expected one, 200 or 201; the ids of the nodes that are listed; the id of
-- a new node; the address of the delete link.
pub record Response : Type 0 where
  pub is_expected : Bool
  pub ids : List String
  pub new_id : String
  pub delete_path : Option String

-- The answer to a request after the requests before, and the user of the client.
pub record Site : Type 0 where
  pub answer : List Request → Request → Response
  pub user_id : ℕ

pub data Error : Type 0 where
  node_lookup_error node_create_error node_edit_error node_delete_error : Error
  form_retrieval_error alias_delete_error alias_create_error : Error

pub data Step {ℓ} (A : Type ℓ) : Type ℓ where
  done : A → List Request → Step A
  failed : Error → List Request → Step A

unfoldable pub requests {ℓ} : {A : Type ℓ} → Step A → List Request
requests (done _ sent) = sent
requests (failed _ sent) = sent

unfoldable pub and_then {ℓ ℓ'} :
    {A : Type ℓ} {B : Type ℓ'} → Step A → (A → List Request → Step B) → Step B
and_then (done a sent) f = f a sent
and_then (failed error sent) f = failed error sent

-- A request, which fails with the error where its answer is not the expected one.
unfoldable pub send : Site → Error → Request → List Request → Step Response
send site error request sent =
    let response = site.answer sent request in
    if response.is_expected then done response (request ∷ sent) else failed error (request ∷ sent)

abbrev pub first_id : List String → Option String
first_id [] = none
first_id (id ∷ _) = some id

unfoldable pub node_id : Site → String → List Request → Step (Option String)
unfolding send and_then
node_id site lookup sent =
    and_then (send site node_lookup_error (get_nodes lookup) sent)
      (λ response sent'. done (first_id response.ids) sent')

unfoldable pub create_node : Site → Node → List Request → Step String
unfolding send and_then
create_node site node sent =
    and_then (send site node_create_error (post_node node) sent)
      (λ response sent'. done response.new_id sent')

unfoldable pub edit_node : Site → String → Node → List Request → Step {0} Unit
unfolding send and_then
edit_node site id node sent =
    and_then (send site node_edit_error (put_node id node) sent) (λ response sent'. done tt sent')

-- `delete_obj`, with the node that is looked up
unfoldable pub delete_obj : Site → String → List Request → Step {0} Unit
unfolding send and_then node_id
delete_obj site lookup sent = and_then (node_id site lookup sent) (λ found sent'. elim found [
  | none ↦ done tt sent'
  | some id ↦
      and_then (send site node_delete_error (delete_node_at id) sent') (λ _ sent''. done tt sent'')
])

unfoldable pub form_inputs : Site → String → List Request → Step {0} Unit
unfolding send and_then
form_inputs site url sent =
    and_then (send site form_retrieval_error (get_form url) sent) (λ _ sent'. done tt sent')

unfoldable pub alias_delete_path : Site → String → List Request → Step (Option String)
unfolding send and_then
alias_delete_path site slug sent =
    and_then (send site form_retrieval_error (get_alias_list slug) sent)
      (λ response sent'. done response.delete_path sent')

unfoldable pub delete_alias : Site → String → List Request → Step {0} Unit
unfolding send and_then form_inputs
delete_alias site path sent = and_then (form_inputs site path sent) (λ _ sent'.
    and_then (send site alias_delete_error (post_delete path) sent') (λ _ sent''. done tt sent''))

unfoldable pub get_and_delete_alias : Site → String → List Request → Step {0} Unit
unfolding and_then alias_delete_path delete_alias
get_and_delete_alias site slug sent =
    and_then (alias_delete_path site slug sent) (λ found sent'. elim found [
      | none ↦ done tt sent'
      | some path ↦ delete_alias site path sent'
    ])

-- `self.alias(obj)` and `self.get_marketing_slug(obj)`
pub record Alias : Type 0 where
  pub alias : String
  pub slug : String

abbrev pub is_other_alias : Option Alias → Alias → Bool
is_other_alias none new = true
is_other_alias (some previous) new = not (previous.alias == new.alias)

abbrev pub is_missing : Option String → Bool
is_missing none = true
is_missing (some _) = false

-- The old alias is deleted before the new one is saved, where the slug has changed.
unfoldable pub clear_alias : Site → Option Alias → Alias → List Request → Step {0} Unit
unfolding get_and_delete_alias
clear_alias site none new sent = done tt sent
clear_alias site (some previous) new sent =
    if not (previous.slug == new.slug)
    then get_and_delete_alias site previous.slug sent
    else done tt sent

unfoldable pub save_alias : Site → Alias → String → Option Alias → List Request → Step {0} Unit
unfolding send and_then form_inputs clear_alias
save_alias site new id previous sent = and_then (clear_alias site previous new sent) (λ _ sent1.
    and_then (form_inputs site "/admin/config/search/path/add" sent1) (λ _ sent2.
      and_then (send site alias_create_error (post_alias new.alias id) sent2)
        (λ _ sent3. done tt sent3)))

unfoldable pub update_node_alias :
    Site → Alias → String → Option Alias → List Request → Step {0} Unit
unfolding and_then alias_delete_path save_alias
update_node_alias site new id previous sent =
    and_then (alias_delete_path site new.slug sent) (λ found sent'.
      if is_other_alias previous new || is_missing found
      then save_alias site new id previous sent'
      else done tt sent')
