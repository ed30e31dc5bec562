-- ===== src/History.antt =====
-- internal/history: the bounded revision timeline of the watched object definitions.
pub mod Types
pub mod Values
pub mod Paths
pub mod Replay
pub mod Store
pub mod Journal
pub mod Persisted
pub mod Restart
pub mod Walk
pub mod Diff
