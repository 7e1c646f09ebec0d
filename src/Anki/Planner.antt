-- ===== src/Anki/Planner.antt =====
-- internal/anki/planner: the decisions of one synchronisation run.
pub mod Runner
pub mod Log
pub mod Steps
pub mod Fields
pub mod Branches
pub mod Entries
pub mod Orphans
pub mod Run
pub mod Migrate
mod Tests
