-- ===== src/Course.antt =====
-- The Course model and what it does with its course runs
-- (course_discovery/apps/course_metadata/models.py).
pub mod Advertised
pub mod Unpublish
pub mod Slugs
pub mod Entitlement
pub mod Drafts
pub mod Update
pub mod Creation
pub mod Types
