-- ===== src/Evidence/Poller/Atomic.antt =====
-- What the published status says of the report, the backups beside it and the last failure.
use pg_console.Prelude.{
  ℕ, ◌≡◌, ◌⊎◌, Bool, true, false, Option, none, some, List, [], ◌∷◌, eqb, if◌then◌else◌,
}
use pg_console.Evidence.Poller.{FailureKind, Fetched, fetched, failed, Report, Poller, Round}

abbrev pub failing : Option FailureKind → Bool
failing none = false
failing (some kind) = true

-- What the collection of a generation is: generation zero has none.
abbrev pub collection_of : {B : Type 0} → (ℕ → List B × Bool) → ℕ → List B × Bool
collection_of backups_of generation =
    if eqb generation 0 then ([], false) else backups_of generation

module _ {D B : Type 0} (backups_of : ℕ → List B × Bool) where
  -- A generation is immutable: whatever its revision, what is assembled for it is the same.
  abbrev pub Agrees : List (Round D B) → Type 0
  Agrees [] = Unit
  Agrees (r ∷ rounds) =
      ((revision generation : ℕ)
        → ((kind : FailureKind) × (r.collection revision generation ≡ failed kind))
          ⊎ (r.collection revision generation ≡ fetched (backups_of generation)))
      × Agrees rounds

  abbrev Assembled : Poller D B → Type 0
  Assembled p =
      (p.assembled ≡ false)
      ⊎ ((p.backups, p.backups_truncated) ≡ collection_of backups_of p.assembled_generation)

  -- The published backups are those of the published report.
  abbrev pub Matches : Option (Report D) → List B × Bool → Type 0
  Matches none kept = Unit
  Matches (some report) kept = kept ≡ collection_of backups_of report.evidence_generation

  pub record IsAtomic (p : Poller D B) : Type 0 where
    pub cached : Assembled p
    pub whole : Matches p.store.snap.report (p.store.snap.backups, p.store.snap.backups_truncated)
    pub reported : p.store.has ≡ (elim p.store.snap.report [ none ↦ false | some r ↦ true ])
    pub stale : p.store.snap.stale ≡ failing p.store.snap.failure
    pub same_failure : (p.store.has ≡ false) ⊎ (p.store.snap.failure ≡ p.store.failure)

  -- The collection of a report is the poller's, and nothing else of it changed but what it caches.
  Refreshed : Report D → Poller D B → Fetched (Poller D B) → Type 0
  Refreshed report p (failed kind) = Unit
  Refreshed report p (fetched q) =
      ((q.backups, q.backups_truncated) ≡ collection_of backups_of report.evidence_generation)
      × Assembled q
      × (q.store ≡ p.store)
