-- ===== src/Ops.antt =====
-- internal/ops, internal/review, internal/redact and internal/identity: the mutations of the console,
-- their confirmation tokens, and what is recorded of them. A text of a request is a list of code points.
pub mod Csrf
pub mod Identity
pub mod Redact
pub mod Executor
pub mod Review
