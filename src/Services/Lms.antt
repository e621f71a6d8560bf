-- ===== src/Services/Lms.antt =====
-- push_tracks_to_lms_for_course_run (course_discovery/apps/course_metadata/utils.py). The LMS is the
-- list of the slugs of its modes for the run, and `accepts` tells whether it takes a new one.
pub mod Convergence
use course_discovery_ed_uhk.Base.{
  String, Bool, true, false, ◌||◌, not, Option, none, some, List, [], ◌∷◌, ◌++◌, ◌==◌, string_eq,
  if◌then◌else◌, any, is_empty,
}
use course_discovery_ed_uhk.Services.{Mode, Track}

-- `run_type.tracks.filter(seat_type=None)`
unfoldable pub tracks_without_seats : List Track → List Track
tracks_without_seats [] = []
tracks_without_seats (track ∷ tracks) =
    let rest = tracks_without_seats tracks in
    elim track.seat_type [ none ↦ track ∷ rest | some _ ↦ rest ]

abbrev pub has_mode : List String → String → Bool
has_mode modes slug = any (λ m. m == slug) modes

-- The loop over the tracks. `course_modes` is what the LMS had before it; the slugs that are posted,
-- and the modes of the LMS afterwards.
unfoldable pub post_modes :
    (accepts : String → Bool)
    → (course_modes : List String) → List Track
    → List String
    → List String × List String
post_modes accepts course_modes [] modes = ([], modes)
post_modes accepts course_modes (track ∷ tracks) modes =
    let slug = track.mode.slug in
    let skipped = post_modes accepts course_modes tracks modes in
    let modes' = if accepts slug then modes ++ slug ∷ [] else modes in
    let (posted, after) = post_modes accepts course_modes tracks modes' in
    if has_mode course_modes slug then skipped else (slug ∷ posted, after)

-- `available`: the partner has an API client and the address of the LMS.
unfoldable pub push_tracks_to_lms_for_course_run :
    (available : Bool)
    → (accepts : String → Bool) → List Track
    → List String
    → List String × List String
unfolding tracks_without_seats post_modes
push_tracks_to_lms_for_course_run available accepts tracks modes =
    if is_empty (tracks_without_seats tracks) || not available
    then ([], modes)
    else post_modes accepts modes (tracks_without_seats tracks) modes
