-- ===== src/Lib.antt =====
-- pgConsole: verification library for the core of the console.
--
-- pgConsole is a read-only console for PostgreSQL clusters on Kubernetes. Collectors watch the API
-- server and publish immutable snapshots, log tails and scrapes fill bounded in-memory windows, a
-- history store records how the watched objects changed, and the web pages render from all of them.
-- The library models the parts that keep state between requests, and the one that decides what a
-- request may do:
--
--   History (internal/history/history.go, store.go). History/Types has the records; `Mutation` is
--     the calls of `Persister`, which `Store.journal` collects where a persister is wired.
--     History/Store/Defs has the state and the retention (`append`, `evict`, `enforcePerObject`,
--     `enforceBounds`); Commit has the table of objects and `coalesce`, Ops has `Observe` and `Seed`;
--     Prime has `prime` and `NewPersistedStore`; Reads has `Snapshot` and `Revision`. Stable and Runs
--     lift a property of the primitive steps to any calls; Accounting, Order, Pointers, Within, Bounds
--     and Lookup use them.
--     Current and Listing are about the table of objects. History/Replay is the contents that a
--     sequence of persister calls describes, and Store/Mirror compares the store with it.
--   The comparison (internal/history/diff.go). History/Values has decoded JSON, with the equality and
--     the index by name; History/Paths the field paths and the attribution of one to a manager;
--     History/Walk the walk over two values, whose children Changes and Exact describe the same
--     differences apart from it, and History/Diff has `Diff`, over any JSON decoder and encoder.
--   The journal (internal/history/bolt/bolt.go). History/Journal has the pending mutations, the
--     flush as two steps with mutations between them, and the file, over any bbolt and any JSON
--     encoding; its child Load has `Load`, which returns contents, an error, or panics.
--     History/Persisted and History/Restart compose them with the store.
--   Logstream (internal/logstream/buffer.go). Logstream/Buffer has the buffer with every operation
--     of it; its children prove soundness, the loss of oldest entries, the bounds, and what one
--     container's lines do to the others.
--     Logstream/Rules (logstream.go) has the rules and the field tests, Logstream/Matcher the matcher;
--     Texts the tests of a text that they use. Logstream/Runner (runner.go) has a follower, as its
--     calls of the sink and its waits, and the reconciliation of the followers with the roster.
--   Metrics (internal/metrics/store.go, and the limits and kinds of metrics.go). Metrics/Ring has
--     the ring, Metrics/Window the series of an instance (its child Rates is about counters),
--     Metrics/Store the instances, the eviction, and the breaks of `Range`.
--   Observe (internal/observe/keyed.go and loop.go). Observe/Keyed has the retained collection and
--     the cut of a published list, Observe/Loop the engine that every collector runs, over any feed.
--   Evidence (internal/evidence/store.go and poller.go). Evidence/Poller has the published status
--     and the poll cycle, over any sidecar.
--   Authz (internal/authz/authz.go). The tier that an asserted level grants.
--   Ops (internal/ops/csrf.go, ops.go; internal/review, internal/redact, internal/identity). Ops/Csrf
--     has the confirmation tokens over any HMAC, Ops/Executor the operations with their audit,
--     Ops/Review the decisions on access requests, Ops/Identity and Ops/Redact what both use.
--   Web (internal/web/handler.go, ops.go, accessreview.go). The gate of a route, and the two routes
--     that mutate, from the request to the writer.
--   Scenarios has concrete runs. Prelude has what the parts share: maps as association lists with
--     a test of equality, sums over them, sorted strings and binary search.
--
-- State and concurrency. Every modelled method of a store holds the store's lock throughout,
-- so a method is one function on the state and an interleaving is a list of calls. A call that reads
-- the clock takes the time as an argument. A Go map is an association list; where the code ranges
-- over one, the model ranges in the list's order, and what is proved holds for any such list.
--
-- Numbers. Sequence numbers of the history are uint64 and wrap, and what depends on their order has
-- the condition that fewer than 2 ^ 64 revisions are appended. Byte counts and lengths are naturals,
-- far below the 2 ^ 63 of an int for what fits a memory. A bound below zero, which the code treats
-- like zero, is not represented.
--
-- Fuel. `enforce_loop`, `trim_stream` and `trim_total` take as fuel the number of entries that they
-- can drop; the bounds are proved with that fuel, so it is enough. The walk over two values takes the
-- depth of the older one, and never runs out of it.
--
-- Not modelled: the Kubernetes client, the HTTP pages that only render and their templates, the
-- diagnoses, the persistence of metrics, and parsing of configuration and of evidence. The bytes of a
-- manifest, its hashes and what the API server answers are arguments, as are the bbolt file, the JSON
-- encodings, the HMAC, the writers of the mutating requests and the log streams.
pub mod Prelude
pub mod History
pub mod Logstream
pub mod Metrics
pub mod Observe
pub mod Authz
pub mod Evidence
pub mod Ops
pub mod Web
pub mod Scenarios
