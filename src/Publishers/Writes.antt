-- ===== src/Publishers/Writes.antt =====
-- When a course run is written to the marketing site.
use course_discovery_ed_uhk.Base.{
  String, ◌≡◌, refl, Bool, true, ◌&&◌, not, Option, none, some, List, [], ◌∷◌, ◌==◌, string_eq, any,
  Bool-cases, inl, inr,
}
use course_discovery_ed_uhk.Publishers.{
  Request, get_nodes, get_alias_list, get_form, is_write, Site, Step, done, requests, and_then,
  send, node_id, edit_node, alias_delete_path, form_inputs, clear_alias, save_alias,
  update_node_alias, Alias, Node, put_node, post_alias, Error, alias_create_error,
}
use course_discovery_ed_uhk.Run.{status_eq}
use course_discovery_ed_uhk.Publishers.CourseRuns.{
  CourseRun, has_slug_of, publish_node, publish_alias, publish_obj, alias,
}

abbrev writes {ℓ} : {A : Type ℓ} → Step A → Bool
writes step = any is_write (requests step)

-- A write stays one of the requests, whatever its answer is.
send-writes :
    (site : Site) (error : Error) (request : Request) (sent : List Request)
    → is_write request ≡ true
    → writes {0} (and_then (send site error request sent) (λ _ sent'. done tt sent')) ≡ true
unfolding send and_then requests
send-writes site error request sent h = elim (Bool-cases (site.answer sent request).is_expected) [
  | inl e ↦ rw e (rw h refl)
  | inr e ↦ rw e (rw h refl)
]

module _ (site : Site)
    (lists : (sent : List Request) (slug : String)
      → (site.answer sent (get_alias_list slug)).is_expected ≡ true)
    (forms : (sent : List Request) (url : String)
      → (site.answer sent (get_form url)).is_expected ≡ true) where
  update_node_alias-writes :
      (new : Alias) (id : String) (sent : List Request)
      → writes (update_node_alias site new id none sent) ≡ true
  unfolding update_node_alias and_then alias_delete_path send save_alias form_inputs requests
      clear_alias
  update_node_alias-writes new id sent =
      let listed : List Request = get_alias_list new.slug ∷ sent in
      let url : String = "/admin/config/search/path/add" in
      rw (lists sent new.slug, forms listed url)
        (send-writes site alias_create_error (post_alias new.alias id) (get_form url ∷ listed) refl)

  publish_alias-writes :
      (run : CourseRun) (previous : Option CourseRun) (id : String) (sent : List Request)
      → any is_write sent ≡ true
      → writes {0} (publish_alias site run previous (some id) sent) ≡ true
  unfolding publish_alias requests
  publish_alias-writes run previous id sent h = elim (Bool-cases (has_slug_of previous run)) [
    | inl e ↦ rw e h
    | inr e ↦ rw e (update_node_alias-writes (alias run) id sent)
  ]

  edited_writes :
      (run : CourseRun) (previous : Option CourseRun) (id : String) (node : Node)
      (sent : List Request)
      → writes {0} (
          and_then
            (and_then (edit_node site id node sent) (λ _ sent'. done (some id) sent'))
            (λ id' sent'. publish_alias site run previous id' sent'))
        ≡ true
  unfolding and_then edit_node send
  edited_writes run previous id node sent =
      elim (Bool-cases (site.answer sent (put_node id node)).is_expected) [
        | inl e ↦ rw e (publish_alias-writes run previous id (put_node id node ∷ sent) refl)
        | inr e ↦ rw e (unfold requests in refl)
      ]

  -- A course run that has its node and that was saved before is written to the marketing site exactly
  -- where its status or its slug has changed. It is assumed that the requests that only read are
  -- answered.
  pub publish_obj_writes_iff :
      (auto_creation include_uuid : Bool) (run previous : CourseRun) (id : String)
      (ids : List String)
      → (site.answer [] (get_nodes run.key)).is_expected ≡ true
      → (site.answer [] (get_nodes run.key)).ids ≡ id ∷ ids
      → any is_write (requests (publish_obj site auto_creation include_uuid run (some previous) []))
        ≡ not ((run.status == previous.status) && (run.slug == previous.slug))
  unfolding publish_obj node_id send and_then publish_node publish_alias requests
  publish_obj_writes_iff auto_creation include_uuid run previous id ids found listed =
      rw (found, listed)
        (elim (Bool-cases (run.status == previous.status)) [
          | inr e ↦ rw e (edited_writes run (some previous) id _ (get_nodes run.key ∷ []))
          | inl e ↦ elim (Bool-cases (run.slug == previous.slug)) [
            | inl f ↦ rw (e, f) refl
            | inr f ↦ rw (e, f) (update_node_alias-writes (alias run) id (get_nodes run.key ∷ []))
          ]
        ])
