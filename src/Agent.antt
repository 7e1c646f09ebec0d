-- ===== src/Agent.antt =====
-- internal/agentipc: one command line turned into one event for Emacs.
mod Tests
pub mod Numbers
pub mod LispString
pub mod Args
pub mod Request
pub mod Deliver
pub mod Main
