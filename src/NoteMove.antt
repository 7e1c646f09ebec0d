-- ===== src/NoteMove.antt =====
-- internal/notemove/move.go: a directory of notes is moved by a verified copy.
pub mod System
pub mod Manifest
pub mod Copy
pub mod Validate
pub mod Move
mod Tests
