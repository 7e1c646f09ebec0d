-- ===== src/Anki.antt =====
-- The Anki synchronisation back end (internal/anki).
pub mod Protocol
pub mod Registry
pub mod Hashing
pub mod CardOptions
pub mod Client
pub mod Planner
mod Tests
