-- ===== src/Course/Entitlement.antt =====
-- _calculate_entitlement_for_run, _calculate_entitlement_for_course and create_missing_entitlement
-- (course_discovery/apps/course_metadata/utils.py). The runs of a course are listed in the order of
-- their keys, by which `last` goes. What ecommerce is told of an official entitlement is left out.
pub mod Offers
pub mod Asked
pub mod Agreement
use course_discovery_ed_uhk.Base.{
  ℕ, ◌+◌, String, Bool, true, false, ◌&&◌, ◌||◌, not, Option, none, some, List, [], ◌∷◌, ◌++◌, ◌==◌,
  nat_eq, string_eq, if◌then◌else◌, keep, all, is_empty, nat_beq,
}
use course_discovery_ed_uhk.Run.{Seat, CourseRun, verified, professional}
use course_discovery_ed_uhk.Run.Dates.{active_course_runs}

pub record Entitlement : Type 0 where
  pub id : ℕ
  pub mode : String
  pub price : ℕ
  pub currency : String
  pub sku : Option String
  pub draft_version : Option ℕ

-- The tuple that an entitlement is made of.
pub record Terms : Type 0 where
  pub mode : String
  pub price : ℕ
  pub currency : String

abbrev pub same_terms : Option Terms → Option Terms → Bool
same_terms none none = true
same_terms (some a) (some b) =
    (a.mode == b.mode) && nat_beq a.price b.price && (a.currency == b.currency)
same_terms _ _ = false

-- Seat.ENTITLEMENT_MODES
abbrev pub is_entitlement_mode : String → Bool
is_entitlement_mode slug = (slug == verified) || (slug == professional)

abbrev pub terms_of : Seat → Terms
terms_of seat = record { mode = seat.type; price = seat.price; currency = seat.currency }

unfoldable pub calculate_entitlement_for_run : CourseRun → Option Terms
calculate_entitlement_for_run run = elim (keep (λ seat. is_entitlement_mode seat.type) run.seats) [
  | [] ↦ none
  | seat ∷ seats ↦ if is_empty seats then some (terms_of seat) else none
]

abbrev pub last : List CourseRun → List CourseRun
last [] = []
last (run ∷ []) = run ∷ []
last (_ ∷ run ∷ runs) = last (run ∷ runs)

-- All active runs or the latest inactive one.
unfoldable pub runs_to_ask : ℕ → List CourseRun → List CourseRun
runs_to_ask now course_runs =
    let runs = active_course_runs now course_runs in
    if is_empty runs then last course_runs else runs

-- The set of the runs' entitlements, where it has one element.
unfoldable pub agreed_terms : List CourseRun → Option Terms
unfolding calculate_entitlement_for_run
agreed_terms [] = none
agreed_terms (run ∷ runs) =
    let terms = calculate_entitlement_for_run run in
    if all (λ r. same_terms terms (calculate_entitlement_for_run r)) runs then terms else none

unfoldable pub calculate_entitlement_for_course : ℕ → List CourseRun → Option Terms
unfolding runs_to_ask agreed_terms
calculate_entitlement_for_course now course_runs = agreed_terms (runs_to_ask now course_runs)

-- The entitlements of the course afterwards, the next key, and whether one was created.
unfoldable pub create_missing_entitlement :
    ℕ → ℕ → List CourseRun → List Entitlement → List Entitlement × ℕ × Bool
unfolding calculate_entitlement_for_course
create_missing_entitlement now next course_runs entitlements =
    elim (calculate_entitlement_for_course now course_runs) [
      | none ↦ (entitlements, next, false)
      | some terms ↦ (
        entitlements
            ++ (record {
              id = next;
              mode = terms.mode;
              price = terms.price;
              currency = terms.currency;
              sku = none;
              draft_version = none;
            })
              ∷ [],
        next + 1,
        true,
      )
    ]
