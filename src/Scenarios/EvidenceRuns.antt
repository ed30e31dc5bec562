-- ===== src/Scenarios/EvidenceRuns.antt =====
-- internal/evidence on four polls: a publication, the same generation again, a lost sidecar, and a
-- new generation.
use pg_console.Prelude.{
  ℕ, zero, suc, ◌≡◌, refl, Bool, true, false, Option, some, List, [], ◌∷◌, String,
}
use pg_console.Evidence.Poller.{
  FailureKind, timeout, publication_changed, Fetched, fetched, failed, Report, Status, Round,
  new_store, current_evidence, publish, mark_failed, new_poller, keep_collection, assemble, wait,
  next_backoff, poll_failed, poll_succeeded, collected, turn, run,
}

abbrev backups_of : ℕ → List String × Bool
backups_of zero = ([], false)
backups_of (suc n) = ("base" ∷ [], false)

abbrev report_of : ℕ → ℕ → Report String
report_of revision generation = record {
  revision = revision;
  evidence_generation = generation;
  details = "barman";
}

abbrev poll : Fetched (Report String) → ℕ → Round String String
poll answer now = record {
  snapshot = answer;
  collection = λ revision generation. fetched (backups_of generation);
  now = now;
  entropy = some 1_234;
  cancelled = false;
}

abbrev polls : List (Round String String)
polls =
    poll (fetched (report_of 1 5)) 100
    ∷ poll (fetched (report_of 2 5)) 115
    ∷ poll (failed timeout) 130
    ∷ poll (fetched (report_of 3 0)) 131
    ∷ poll (failed publication_changed) 146
    ∷ []

abbrev final_status : Status String String → Option FailureKind × Bool × ℕ × ℕ
final_status s = (s.failure, s.snapshot.stale, s.snapshot.generation, s.snapshot.observed_at)

after_polls :
    final_status (current_evidence (run polls (new_poller new_store)).store)
    ≡ (some publication_changed, true, 3, 131)
unfolding run turn collected assemble keep_collection poll_failed poll_succeeded publish mark_failed
    wait next_backoff new_poller new_store current_evidence
after_polls = refl
