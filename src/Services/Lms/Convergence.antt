-- ===== src/Services/Lms/Convergence.antt =====
-- A push to the LMS leaves nothing to send.
use course_discovery_ed_uhk.Base.{String, ◌≡◌, true, List, string_eq, All}
use course_discovery_ed_uhk.Services.{Track}
use course_discovery_ed_uhk.Services.Lms.{has_mode}

abbrev HasModes : List String → List Track → Type 0
HasModes modes = All (λ track. has_mode modes track.mode.slug ≡ true)
