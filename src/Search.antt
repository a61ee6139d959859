-- ===== src/Search.antt =====
-- How jobs and machines are matched and searched for: texts with wildcards, and the messages of the
-- search (lib/dynamic/utils.cc, lib/dynamic/request.cc).
pub mod Texts
pub mod Wildcard
pub mod Complete
pub mod Fields
pub mod Route
pub mod Exploration
pub mod Request
pub mod Node
pub mod Response
mod Examples
