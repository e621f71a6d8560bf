-- ===== src/Course/Slugs/Official.antt =====
-- Setting the slug of an official course: one active slug, on it and on its draft.
use course_discovery_ed_uhk.Base.{
  String, ◌≡◌, inl, inr, refl, Bool, true, false, ◌&&◌, not, Option, none, some, List, [], ◌∷◌,
  ◌++◌, arith, map, string_eq, eq_iff, if◌then◌else◌, keep, any, first, length, All,
}
use course_discovery_ed_uhk.Course.Slugs.{
  UrlSlug, Result, ok, active, on_draft, has_slug, slug_of, active_url_slug, update_or_create,
  retire, map_ok, set_own, set_on_official,
}
use course_discovery_ed_uhk.Course.Slugs.Active.{
  beside_ok, update_or_create_ok, IsActive, active_of_IsActive, active_of_marked,
}

-- An entry that has the slug and is active everywhere.
abbrev is_full : String → UrlSlug → Bool
is_full slug entry = has_slug slug entry && (active entry && on_draft entry)

any-append_last :
    (p : UrlSlug → Bool) (new : UrlSlug) (own : List UrlSlug)
    → p new ≡ true
    → any p (own ++ new ∷ []) ≡ true
any-append_last p new [] h = ground arith
any-append_last p new (e ∷ own) h = ground (arith, any-append_last p new own h)

any-map_full :
    (slug : String) (own : List UrlSlug)
    → length (keep (has_slug slug) own) ≡ 1
    → any (is_full slug) (
        map
          (λ e.
            if has_slug slug e then record e { is_active = true; is_active_on_draft = true } else e)
          own)
      ≡ true
any-map_full slug [] h = absurd (omega arith)
any-map_full slug (e ∷ own) h = ground (arith, any-map_full slug own)

-- After the last loop the first active entry, and the first one that is active on the draft, have
-- the slug.
retired :
    (slug : String) (own : List UrlSlug)
    → any (is_full slug) own ≡ true
    → IsActive slug (map (retire slug) own)
      × (slug_of (first (keep on_draft (map (retire slug) own))) ≡ some slug)
unfolding retire
retired slug [] h = cc
retired slug (e ∷ own) h = ground (arith, eq_iff e.url_slug slug, retired slug own)

-- Every entry that is left active has the slug.
only_slug :
    (slug : String) (own : List UrlSlug)
    → All (λ e. active e ≡ true → e.url_slug ≡ slug) (map (retire slug) own)
unfolding retire
only_slug slug [] = tt
only_slug slug (e ∷ own) = ((λ h. ground (arith, eq_iff e.url_slug slug)), only_slug slug own)

map_ok_inv :
    (f : List UrlSlug → List UrlSlug) (r : Result (List UrlSlug)) (own' : List UrlSlug)
    → map_ok f r ≡ ok own'
    → (own : List UrlSlug) × (r ≡ ok own) × (own' ≡ f own)
map_ok_inv f (ok own) own' e = (own, refl, ground arith)
map_ok_inv f _ own' e = cc

set_own_ok :
    (taken : Bool) (slug : String) (own own' : List UrlSlug) (in_draft : Bool)
    → set_own taken slug own in_draft ≡ ok own'
    → (written : List UrlSlug) × (any (is_full slug) written ≡ true)
      × (own' ≡ map (retire slug) written)
unfolding set_own
set_own_ok taken slug own own' in_draft e =
    let (written, made, eq) =
      map_ok_inv (map (retire slug)) (update_or_create (has_slug slug) _ _ _ own) own' e in
    elim (update_or_create_ok (has_slug slug) _ _ _ own written made) [
      | inl (zero_rows, w) ↦ (
        written,
        rw w (any-append_last (is_full slug) _ own (ground (arith, eq_iff slug slug))),
        eq,
      )
      | inr (one, w) ↦ (written, rw w (any-map_full slug own one), eq)
    ]

nothing_active : (draft : List UrlSlug) → keep active (keep (λ e. not e.is_active) draft) ≡ []
nothing_active [] = refl
nothing_active (e ∷ draft) = ground (arith, nothing_active draft)

-- A slug that is set on an official course is the active one there and on its draft, and no other
-- entry of the official course stays active.
pub set_on_official-active :
    (taken : Bool) (slug : String) (own own' : List UrlSlug) (other other' : Option (List UrlSlug))
    → set_on_official taken slug own other ≡ ok (own', other')
    → (active_url_slug false own' other' ≡ some slug)
      × All (λ e. active e ≡ true → e.url_slug ≡ slug) own'
      × ((draft : List UrlSlug)
          → other' ≡ some draft
          → active_url_slug true draft (some own') ≡ some slug)
unfolding set_on_official
set_on_official-active taken slug own own' none other' e =
    let (made, nothing) = beside_ok none other' (set_own taken slug own false) own' e in
    let (written, has, eq) = set_own_ok taken slug own own' false made in
    (
      active_of_IsActive false slug own' other' (rw eq (retired slug written has).0),
      rw eq (only_slug slug written),
      λ draft d. cc,
    )
set_on_official-active taken slug own own' (some draft) other' e =
    let left = keep (λ e. not e.is_active) draft in
    let (made, there) =
      beside_ok (some left) other' (set_own taken slug own (any (has_slug slug) left)) own' e in
    let (written, has, eq) = set_own_ok taken slug own own' (any (has_slug slug) left) made in
    (
      active_of_IsActive false slug own' other' (rw eq (retired slug written has).0),
      rw eq (only_slug slug written),
      λ d at.
          let same : left ≡ d = ground arith in
          rw (← same) (
            active_of_marked slug left own' (nothing_active draft)
              (rw eq (retired slug written has).1)),
    )
