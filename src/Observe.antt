-- ===== src/Observe.antt =====
-- internal/observe: the machinery that the collectors share.
pub mod Keyed
pub mod Loop
