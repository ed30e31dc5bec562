-- ===== src/Evidence.antt =====
-- internal/evidence: the status of the backup repository, polled from a sidecar.
pub mod Poller
