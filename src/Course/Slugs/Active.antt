-- ===== src/Course/Slugs/Active.antt =====
-- After a slug is set it is the active one, on the draft and on the official course.
use course_discovery_ed_uhk.Base.{
  ℕ, ◌≤◌, zero, suc, String, ◌≡◌, refl, Bool, true, false, Option, none, some, List, [], ◌∷◌, ◌++◌,
  arith, map, string_eq, eq_iff, if◌then◌else◌, keep, inl, inr, any, first, length, Bool-cases, ◌⊎◌,
}
use mathlib.Core.Path.{subst₂}
use course_discovery_ed_uhk.Course.Slugs.{
  UrlSlug, Result, ok, beside, active, on_draft, has_slug, active_url_slug, update_or_create,
  by_count, delete_first, mark_match, set_new_on_draft, slug_of, set_on_draft,
}

pub beside_ok :
    (other other' : Option (List UrlSlug)) (r : Result (List UrlSlug)) (own' : List UrlSlug)
    → beside other r ≡ ok (own', other')
    → (r ≡ ok own') × (other ≡ other')
unfolding beside
beside_ok other other' (ok own) own' e = (ground arith, ground arith)
beside_ok other other' _ own' e = cc

-- At most one entry is active.
abbrev pub count_active : List UrlSlug → ℕ
count_active own = length (keep active own)

first_marked :
    (slug : String) (official : List UrlSlug)
    → any (has_slug slug) official ≡ true
    → slug_of (first (keep on_draft (map (mark_match slug) official))) ≡ some slug
unfolding mark_match
first_marked slug [] h = ground arith
first_marked slug (e ∷ official) h =
    ground (arith, eq_iff e.url_slug slug, first_marked slug official)

-- Nothing is active once the only active entry is deleted.
delete_only :
    (own : List UrlSlug) → count_active own ≤ 1 → keep active (delete_first active own) ≡ []
unfolding delete_first
delete_only [] h = refl
delete_only (e ∷ own) h = grind (arith, delete_only own)

-- The first active entry of a history has the slug.
abbrev pub IsActive : String → List UrlSlug → Type 0
IsActive slug own = slug_of (first (keep active own)) ≡ some slug

append-IsActive :
    (slug : String) (marked : Bool) (own : List UrlSlug)
    → count_active own ≡ 0
    → IsActive slug
        (own ++ record { url_slug = slug; is_active = true; is_active_on_draft = marked } ∷ [])
append-IsActive slug marked [] h = refl
append-IsActive slug marked (e ∷ own) h = ground (arith, append-IsActive slug marked own)

rename_active :
    (slug : String) (own : List UrlSlug)
    → 1 ≤ count_active own
    → IsActive slug
        (map (λ e. if active e then record e { is_active = true; url_slug = slug } else e) own)
rename_active slug [] h = absurd (omega arith)
rename_active slug (e ∷ own) h = ground (arith, rename_active slug own)

by_count_ok :
    (n : ℕ) (p : UrlSlug → Bool) (change : UrlSlug → UrlSlug) (new : UrlSlug)
    (own own' : List UrlSlug)
    → by_count n p change new own ≡ ok own'
    → ((n ≡ 0) × (own' ≡ own ++ new ∷ []))
      ⊎ ((n ≡ 1) × (own' ≡ map (λ e. if p e then change e else e) own))
unfolding by_count
by_count_ok zero p change new own own' e = inl (refl, ground arith)
by_count_ok (suc zero) p change new own own' e = inr (refl, ground arith)
by_count_ok (suc (suc n)) p change new own own' e = cc

-- A write that succeeds added the row or changed the only one that matches.
pub update_or_create_ok :
    (p : UrlSlug → Bool) (change : UrlSlug → UrlSlug) (new : UrlSlug) (elsewhere : Bool)
    (own own' : List UrlSlug)
    → update_or_create p change new elsewhere own ≡ ok own'
    → ((length (keep p own) ≡ 0) × (own' ≡ own ++ new ∷ []))
      ⊎ ((length (keep p own) ≡ 1) × (own' ≡ map (λ e. if p e then change e else e) own))
unfolding update_or_create
update_or_create_ok p change new elsewhere own own' e =
    by_count_ok (length (keep p own)) p change new own own' (ground arith)

set_new_on_draft-IsActive :
    (taken : Bool) (slug : String) (own own' : List UrlSlug) (in_official : Bool)
    → set_new_on_draft taken slug own in_official ≡ ok own'
    → IsActive slug own'
unfolding set_new_on_draft
set_new_on_draft-IsActive taken slug own own' in_official e =
    elim (update_or_create_ok active _ _ _ own own' e) [
      | inl (zero_rows, eq) ↦ rw eq (append-IsActive slug false own zero_rows)
      | inr (one, eq) ↦ rw eq (rename_active slug own (omega arith))
    ]

-- The active entry of its own decides what a draft shows.
pub active_of_IsActive :
    (draft : Bool) (slug : String) (own : List UrlSlug) (other : Option (List UrlSlug))
    → IsActive slug own
    → active_url_slug draft own other ≡ some slug
unfolding active_url_slug
active_of_IsActive draft slug own other h = ground arith

-- A draft with nothing of its own shows what its official version marks.
pub active_of_marked :
    (slug : String) (own official : List UrlSlug)
    → keep active own ≡ []
    → slug_of (first (keep on_draft official)) ≡ some slug
    → active_url_slug true own (some official) ≡ some slug
unfolding active_url_slug
active_of_marked slug own official e h = ground arith

-- A new slug of a draft is its active one, whether it comes from its own history or from that of
-- its official version. The draft has at most one active entry before.
pub set_on_draft-active :
    (taken : Bool) (slug : String) (own own' : List UrlSlug) (other other' : Option (List UrlSlug))
    → count_active own ≤ 1
    → set_on_draft taken slug own other ≡ ok (own', other')
    → active_url_slug true own' other' ≡ some slug
unfolding set_on_draft
set_on_draft-active taken slug own own' none other' h e =
    let (made, _) = beside_ok none other' (set_new_on_draft taken slug own false) own' e in
    active_of_IsActive true slug own' other'
      (set_new_on_draft-IsActive taken slug own own' false made)
set_on_draft-active taken slug own own' (some official) other' h e =
    elim (Bool-cases (any (has_slug slug) official)) [
      | inl found ↦
          let (here, there) =
            beside_ok (some (map (mark_match slug) official)) other' (ok (delete_first active own))
              own' (unfold beside in (rw found at e)) in
          subst₂ (λ x y. active_url_slug true x y ≡ some slug) (ground arith) there
            (active_of_marked slug (delete_first active own) (map (mark_match slug) official)
              (delete_only own h) (first_marked slug official found))
      | inr new ↦
          let (made, _) =
            beside_ok (some (map (mark_match slug) official)) other'
              (set_new_on_draft taken slug own false) own' (rw new at e) in
          active_of_IsActive true slug own' other'
            (set_new_on_draft-IsActive taken slug own own' false made)
    ]
