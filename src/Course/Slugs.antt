-- ===== src/Course/Slugs.antt =====
-- Course.active_url_slug and Course.set_active_url_slug
-- (course_discovery/apps/course_metadata/models.py), over the url slugs of a course and of its
-- counterpart: the official version of a draft, the draft version of an official course. A history
-- is the list of its rows in the order of their keys; the slug to set is not empty, so that the
-- field does not make one up; all rows belong to one partner, within which a slug is unique.
pub mod Active
pub mod Official
use course_discovery_ed_uhk.Base.{
  ℕ, zero, suc, String, Bool, true, false, ◌&&◌, ◌||◌, not, Option, none, some, List, [], ◌∷◌, ◌++◌,
  map, ◌==◌, string_eq, if◌then◌else◌, leb, keep, any, first, length,
}

-- CourseUrlSlug
pub record UrlSlug : Type 0 where
  pub url_slug : String
  pub is_active : Bool
  pub is_active_on_draft : Bool

pub data Result {ℓ} (A : Type ℓ) : Type ℓ where
  ok : A → Result A
  multiple_objects_returned integrity_error : Result A

abbrev pub map_ok {ℓ} : {A : Type ℓ} → (A → A) → Result A → Result A
map_ok f (ok a) = ok (f a)
map_ok f multiple_objects_returned = multiple_objects_returned
map_ok f integrity_error = integrity_error

abbrev pub active : UrlSlug → Bool
active entry = entry.is_active

abbrev pub on_draft : UrlSlug → Bool
on_draft entry = entry.is_active_on_draft

abbrev pub slug_of : Option UrlSlug → Option String
slug_of none = none
slug_of (some entry) = some entry.url_slug

-- `draft` tells a draft from an official course; `other` is the history of the counterpart.
unfoldable pub active_url_slug : Bool → List UrlSlug → Option (List UrlSlug) → Option String
active_url_slug draft own other = elim (first (keep active own)) [
  | some entry ↦ some entry.url_slug
  | none ↦
      if draft
      then elim other [ none ↦ none | some official ↦ slug_of (first (keep on_draft official)) ]
      else none
]

abbrev pub has_slug : String → UrlSlug → Bool
has_slug slug entry = entry.url_slug == slug

-- What a write of `update_or_create` gives, by the number of rows that match: none is a new row,
-- one is changed, and more are refused.
by_count :
    ℕ → (UrlSlug → Bool) → (UrlSlug → UrlSlug) → UrlSlug → List UrlSlug → Result (List UrlSlug)
by_count zero p change new own = ok (own ++ new ∷ [])
by_count (suc zero) p change new own =
    ok (map (λ entry. if p entry then change entry else entry) own)
by_count (suc (suc _)) p change new own = multiple_objects_returned

-- `elsewhere` tells whether the slug stands in a row that the call cannot match: the database
-- refuses a second row with it.
pub update_or_create :
    (UrlSlug → Bool) → (UrlSlug → UrlSlug) → UrlSlug → Bool → List UrlSlug → Result (List UrlSlug)
unfolding by_count
update_or_create p change new elsewhere own =
    if any (λ entry. not (p entry) && has_slug new.url_slug entry) own || elsewhere
    then (if leb 2 (length (keep p own)) then multiple_objects_returned else integrity_error)
    else by_count (length (keep p own)) p change new own

-- `queryset.filter(p).first()`, deleted if there is one
delete_first : (UrlSlug → Bool) → List UrlSlug → List UrlSlug
delete_first p [] = []
delete_first p (entry ∷ own) = if p entry then own else entry ∷ delete_first p own

-- The loop over the official history: the entries that are active on the draft or have the slug.
mark_match : String → UrlSlug → UrlSlug
mark_match slug entry =
    if entry.is_active_on_draft || has_slug slug entry
    then record entry { is_active_on_draft = has_slug slug entry }
    else entry

-- "case 2: slug has not been used for this course before"
set_new_on_draft : Bool → String → List UrlSlug → Bool → Result (List UrlSlug)
unfolding update_or_create
set_new_on_draft taken slug own in_official =
    update_or_create active (λ entry. record entry { is_active = true; url_slug = slug })
      (record { url_slug = slug; is_active = true; is_active_on_draft = false })
      (in_official || taken) own

-- The written history beside what the call left of the counterpart's.
pub beside :
    Option (List UrlSlug) → Result (List UrlSlug) → Result (List UrlSlug × Option (List UrlSlug))
beside other (ok own) = ok (own, other)
beside other multiple_objects_returned = multiple_objects_returned
beside other integrity_error = integrity_error

-- The branch for a draft, with the history of its official version if there is one.
unfoldable pub set_on_draft :
    Bool
    → String
    → List UrlSlug
    → Option (List UrlSlug)
    → Result (List UrlSlug × Option (List UrlSlug))
unfolding set_new_on_draft mark_match delete_first beside
set_on_draft taken slug own none = beside none (set_new_on_draft taken slug own false)
set_on_draft taken slug own (some official) =
    let marked = map (mark_match slug) official in
    if any (has_slug slug) official
    then ok (delete_first active own, some marked)
    else beside (some marked) (set_new_on_draft taken slug own false)

-- The last loop of the branch for an official course.
retire : String → UrlSlug → UrlSlug
retire slug entry =
    if (entry.is_active || entry.is_active_on_draft) && not (has_slug slug entry)
    then record entry { is_active = false; is_active_on_draft = false }
    else entry

-- What the branch does to its own history, once the draft's active entries are gone.
set_own : Bool → String → List UrlSlug → Bool → Result (List UrlSlug)
unfolding update_or_create retire
set_own taken slug own in_draft = map_ok (map (retire slug)) (
    update_or_create (has_slug slug)
      (λ entry. record entry { is_active = true; is_active_on_draft = true })
      (record { url_slug = slug; is_active = true; is_active_on_draft = true }) (in_draft || taken)
      own)

-- The branch for an official course, with the history of its draft version if there is one.
unfoldable pub set_on_official :
    Bool
    → String
    → List UrlSlug
    → Option (List UrlSlug)
    → Result (List UrlSlug × Option (List UrlSlug))
unfolding set_own beside
set_on_official taken slug own none = beside none (set_own taken slug own false)
set_on_official taken slug own (some draft) =
    let left = keep (λ entry. not entry.is_active) draft in
    beside (some left) (set_own taken slug own (any (has_slug slug) left))

-- `taken` tells whether a row of another course has the slug.
unfoldable pub set_active_url_slug :
    Bool
    → Bool
    → String
    → List UrlSlug
    → Option (List UrlSlug)
    → Result (List UrlSlug × Option (List UrlSlug))
unfolding set_on_draft set_on_official
set_active_url_slug draft taken slug own other =
    if draft then set_on_draft taken slug own other else set_on_official taken slug own other
