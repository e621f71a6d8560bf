-- ===== src/Services.antt =====
-- What the official version of a course run sends to the other services.
pub mod Ecommerce
pub mod Lms
use course_discovery_ed_uhk.Base.{String, Bool, Option}

-- The Mode and Track models (course_discovery/apps/course_metadata/models.py); a seat type is its
-- slug.
pub record Mode : Type 0 where
  pub slug : String
  pub name : String
  pub certificate_type : String
  pub is_id_verified : Bool

pub record Track : Type 0 where
  pub seat_type : Option String
  pub mode : Mode
