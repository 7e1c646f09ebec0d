-- ===== src/Clipboard.antt =====
-- internal/clipboard: the transactions by which pasted files become assets of a document.
pub mod Protocol
pub mod Disk
pub mod Staging
pub mod Publisher
pub mod Verify
pub mod Transaction
pub mod Owner
pub mod Service
mod Tests
