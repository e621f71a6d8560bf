-- ===== src/Search.antt =====
-- The commands on the search indexes (course_discovery/apps/edx_haystack_extensions/management/commands).
-- Update has update_index, and Unused has remove_unused_indexes. Elasticsearch is a parameter.
pub mod Update
pub mod Lookups
pub mod Aliases
pub mod Pending
pub mod Unused
