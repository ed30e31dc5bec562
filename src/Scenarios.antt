-- ===== src/Scenarios.antt =====
-- The theorems applied at concrete runs, and tests of the definitions.
mod HistoryRuns
mod LogRuns
mod MetricsRuns
mod ObserveRuns
mod AuthzRuns
mod EvidenceRuns
mod Cursors
mod JournalRuns
mod FollowRuns
mod DiffRuns
mod MutationRuns
