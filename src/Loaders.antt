-- ===== src/Loaders.antt =====
-- The data loaders (course_discovery/apps/course_metadata/data_loaders).
pub mod Pages
pub mod Ecommerce
pub mod Courses
pub mod Analytics
