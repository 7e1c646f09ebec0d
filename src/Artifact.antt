-- ===== src/Artifact.antt =====
-- internal/artifact: the extraction of a verified archive into a directory.
mod Tests
pub mod Paths
pub mod Headers
pub mod Staging
pub mod Extract
pub mod Commit
