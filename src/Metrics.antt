-- ===== src/Metrics.antt =====
-- internal/metrics: the bounded windows of the scraped series.
pub mod Ring
pub mod Window
pub mod Store
