-- ===== src/Tests.antt =====
-- Concrete items, programs and systems, with a run of each theorem on them.
pub mod Items
pub mod Stories
pub mod Outputs
pub mod Runs
pub mod Sources
pub mod Matchers
pub mod Systems
pub mod Processes
pub mod Startup
pub mod Programs
pub mod Reports
pub mod Selection
