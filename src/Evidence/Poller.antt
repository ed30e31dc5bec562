-- ===== src/Evidence/Poller.antt =====
-- internal/evidence/store.go and poller.go: the published status, and the cycle that polls it.
--
-- What the sidecar answers comes in rounds, the list of which ends where the context is cancelled
-- in a wait. Of a report the poller reads the revision and the evidence generation; `D` is the rest
-- of it, and `B` a backup. The error of a fetch is its kind, and no failure is `none`, where the code
-- has `FailureNone`. The log is left out; `waits` lists the waits, in nanoseconds.
pub mod Atomic
pub mod Paced
use pg_console.Prelude.{
  ℕ, ◌+◌, ◌*◌, ◌/◌, ◌%◌, Bool, true, false, not, ◌&&◌, Option, none, some, List, [], ◌∷◌, ◌++◌, ltb,
  eqb, u64, if◌then◌else◌,
}

pub data FailureKind : Type 0 where
  unavailable timeout canceled unauthenticated busy incompatible invalid : FailureKind
  identity_mismatch publication_changed : FailureKind

pub data Fetched (A : Type 0) : Type 0 where
  fetched : A → Fetched A
  failed : FailureKind → Fetched A

pub record Report (D : Type 0) : Type 0 where
  pub revision : ℕ
  pub evidence_generation : ℕ
  pub details : D

-- The report of the zero value is `none`.
pub record Snapshot (D B : Type 0) : Type 0 where
  pub generation : ℕ  -- uint64
  pub observed_at : ℕ
  pub stale : Bool
  pub failure : Option FailureKind
  pub report : Option (Report D)
  pub backups : List B
  pub backups_truncated : Bool

pub record Store (D B : Type 0) : Type 0 where
  pub snap : Snapshot D B
  pub has : Bool
  pub failure : Option FailureKind

pub record Status (D B : Type 0) : Type 0 where
  pub has_report : Bool
  pub snapshot : Snapshot D B
  pub failure : Option FailureKind

pub record Poller (D B : Type 0) : Type 0 where
  pub store : Store D B
  pub backoff : ℕ
  pub assembled : Bool
  pub assembled_generation : ℕ
  pub backups : List B
  pub backups_truncated : Bool
  pub waits : List ℕ

-- One turn of `Run`: what the snapshot route answers, what assembling the backups of a revision and
-- a generation would give, the time, what reading the entropy gives, and whether the context is
-- found cancelled after a failure.
pub record Round (D B : Type 0) : Type 0 where
  pub snapshot : Fetched (Report D)
  pub collection : ℕ → ℕ → Fetched (List B × Bool)
  pub now : ℕ
  pub entropy : Option ℕ
  pub cancelled : Bool

abbrev pub second : ℕ
second = 1_000_000_000

abbrev pub poll_interval : ℕ
poll_interval = 15 * second

abbrev pub poll_jitter_max : ℕ
poll_jitter_max = 3 * second

abbrev pub poll_backoff_initial : ℕ
poll_backoff_initial = second

abbrev pub poll_backoff_max : ℕ
poll_backoff_max = 30 * second

-- The entropy is 64 bits; a failed read is `none`.
abbrev pub random_jitter : Option ℕ → ℕ → ℕ
random_jitter none maximum = maximum / 2
random_jitter (some bits) maximum = u64 bits % maximum

module _ {D B : Type 0} where
  unfoldable pub new_store : Store D B
  new_store = record {
    snap = record {
      generation = 0;
      observed_at = 0;
      stale = false;
      failure = none;
      report = none;
      backups = [];
      backups_truncated = false;
    };
    has = false;
    failure = none;
  }

  unfoldable pub current_evidence : Store D B → Status D B
  current_evidence s = record { has_report = s.has; snapshot = s.snap; failure = s.failure }

  unfoldable pub publish : Report D → List B → Bool → ℕ → Store D B → Store D B
  publish report backups truncated now s = record {
    snap = record {
      generation = u64 (s.snap.generation + 1);
      observed_at = now;
      stale = false;
      failure = none;
      report = some report;
      backups = backups;
      backups_truncated = truncated;
    };
    has = true;
    failure = none;
  }

  unfoldable pub mark_failed : FailureKind → Store D B → Store D B
  mark_failed kind s =
      let failing = record s { failure = some kind } in
      if s.has
      then record failing { snap = record s.snap { stale = true; failure = some kind } }
      else failing

  unfoldable pub new_poller : Store D B → Poller D B
  new_poller store = record {
    store = store;
    backoff = poll_backoff_initial;
    assembled = false;
    assembled_generation = 0;
    backups = [];
    backups_truncated = false;
    waits = [];
  }

  unfoldable pub keep_collection : ℕ → List B × Bool → Poller D B → Poller D B
  keep_collection generation (backups, truncated) p = record p {
    assembled = true;
    assembled_generation = generation;
    backups = backups;
    backups_truncated = truncated;
  }

  -- The poller afterwards, or the kind of the failure that leaves it as it was.
  unfoldable pub assemble :
      (ℕ → ℕ → Fetched (List B × Bool)) → Report D → Poller D B → Fetched (Poller D B)
  unfolding keep_collection
  assemble collection report p =
      let generation = report.evidence_generation in
      if eqb generation 0
      then fetched (keep_collection 0 ([], false) p)
      else if p.assembled && eqb p.assembled_generation generation
      then fetched p
      else elim (collection report.revision generation) [
        | fetched kept ↦ fetched (keep_collection generation kept p)
        | failed kind ↦ failed kind
      ]

  unfoldable pub wait : ℕ → Poller D B → Poller D B
  wait delay p = record p { waits = p.waits ++ delay ∷ [] }

  -- The wait is given the delay from before it is doubled.
  unfoldable pub next_backoff : Poller D B → Poller D B
  next_backoff p =
      let doubled = p.backoff * 2 in
      record p { backoff = if ltb poll_backoff_max doubled then poll_backoff_max else doubled }

  -- The error branch of `Run`; the second component is whether it returns.
  unfoldable pub poll_failed : Round D B → FailureKind → Poller D B → Poller D B × Bool
  unfolding mark_failed wait next_backoff
  poll_failed r kind p =
      if r.cancelled
      then (p, true)
      else (wait p.backoff (next_backoff (record p { store = mark_failed kind p.store })), false)

  unfoldable pub poll_succeeded : Round D B → Report D → Poller D B → Poller D B
  unfolding publish wait
  poll_succeeded r report p =
      let published = publish report p.backups p.backups_truncated r.now p.store in
      wait (poll_interval + random_jitter r.entropy poll_jitter_max)
        (record p { store = published; backoff = poll_backoff_initial })

  unfoldable pub collected :
      Round D B → Report D → Fetched (Poller D B) → Poller D B → Poller D B × Bool
  collected r report (fetched p') p = (poll_succeeded r report p', false)
  collected r report (failed kind) p = poll_failed r kind p

  unfoldable pub turn : Round D B → Poller D B → Poller D B × Bool
  turn r p = elim r.snapshot [
    | fetched report ↦ collected r report (assemble r.collection report p) p
    | failed kind ↦ poll_failed r kind p
  ]

  unfoldable pub run : List (Round D B) → Poller D B → Poller D B
  run [] p = p
  run (r ∷ rounds) p =
      let rest = run rounds (turn r p).0 in if (turn r p).1 then (turn r p).0 else rest
