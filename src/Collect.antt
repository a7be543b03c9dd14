-- ===== src/Collect.antt =====
-- app/agtapi/collect.go, app/agtsvc/collect.go and app/internal/param/collect.go: an agent reports the
-- processes, listeners, accounts, groups and packages of its host, and the broker keeps its rows of each
-- table in step with the last report.
pub mod Param
pub mod Model
pub mod Replace
pub mod Handlers
pub mod Laws
mod Path
pub mod Sbom
pub mod Components
pub mod Projects
pub mod Host
pub mod Answers
