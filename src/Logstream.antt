-- ===== src/Logstream.antt =====
-- internal/logstream: what the log tails retain.
pub mod Buffer
pub mod Texts
pub mod Rules
pub mod Matcher
pub mod Runner
