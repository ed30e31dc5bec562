-- ===== src/History/Store/Runs.antt =====
-- What the calls of the recorder and priming keep, with the revisions that they append counted.
use pg_console.Prelude.{ℕ, ◌+◌, subst, true, List, [], ◌∷◌, String, arith, length}
use pg_console.Prelude.Eq.{string_eq}
use pg_console.History.Types.{Time, Observation}
use pg_console.History.Store.Defs.{Store}
use pg_console.History.Store.Ops.{
  delete_all, observe_all, seed, Call, observed, seeded, record_call, record_calls, gone_uids,
}
use pg_console.History.Types.{Contents}
use pg_console.History.Store.Prime.{loaded, enforce_all, keys, prime}
use pg_console.History.Store.Stable.{
  IsStable, enforce_bounds-keeps, enforce_per_object-keeps, delete_unobserved-keeps,
  observe_at-keeps, observe-keeps,
}

-- How many revisions a call may append.
abbrev pub appends : Call → Store → ℕ
appends (observed obs now) s = 1
appends (seeded scope listing now) s = length (gone_uids scope listing s) + length listing

unfoldable pub appends_all : List Call → Store → ℕ
appends_all [] s = 0
appends_all (call ∷ calls) s = appends call s + appends_all calls (record_call call s)

module _ {P : ℕ → Store → Type 0} (k : IsStable P) where
  pub delete_all-keeps :
      (n : ℕ) (uids : List String) (now : Time) (s : Store)
      → P (length uids + n) s
      → P n (delete_all uids now s)
  unfolding delete_all
  delete_all-keeps n [] now s h = subst (λ m. P m s) (omega arith) h
  delete_all-keeps n (uid ∷ uids) now s h =
      delete_all-keeps n uids now _
        (delete_unobserved-keeps k (length uids + n) uid now s (subst (λ m. P m s) (omega arith) h))

  observe_all-keeps :
      (n : ℕ) (listing : List Observation) (now : Time) (s : Store)
      → P (length listing + n) s
      → P n (observe_all listing now s)
  unfolding observe_all
  observe_all-keeps n [] now s h = subst (λ m. P m s) (omega arith) h
  observe_all-keeps n (obs ∷ rest) now s h =
      observe_all-keeps n rest now _
        (observe_at-keeps k (length rest + n) obs now true s (subst (λ m. P m s) (omega arith) h))

  pub seed-keeps :
      (n : ℕ) (scope : String) (listing : List Observation) (now : Time) (s : Store)
      → P (length (gone_uids scope listing s) + (length listing + n)) s
      → P n (seed scope listing now s)
  unfolding seed
  seed-keeps n scope listing now s h =
      observe_all-keeps n listing now _
        (delete_all-keeps (length listing + n) (gone_uids scope listing s) now s h)

  pub record_call-keeps :
      (n : ℕ) (call : Call) (s : Store) → P (appends call s + n) s → P n (record_call call s)
  unfolding record_call
  record_call-keeps n (observed obs now) s h =
      observe-keeps k n obs now s (subst (λ m. P m s) (omega arith) h)
  record_call-keeps n (seeded scope listing now) s h =
      seed-keeps n scope listing now s (subst (λ m. P m s) (omega arith) h)

  pub record_calls-keeps :
      (n : ℕ) (calls : List Call) (s : Store)
      → P (appends_all calls s + n) s
      → P n (record_calls calls s)
  unfolding record_calls appends_all
  record_calls-keeps n [] s h = subst (λ m. P m s) (omega arith) h
  record_calls-keeps n (call ∷ calls) s h = record_calls-keeps n calls (record_call call s) (
      record_call-keeps (appends_all calls (record_call call s) + n) call s
        (subst (λ m. P m s) (omega arith) h))

  pub enforce_all-keeps :
      (n : ℕ) (uids : List String) (s : Store) → P n s → P n (enforce_all uids s)
  unfolding enforce_all
  enforce_all-keeps n [] s h = h
  enforce_all-keeps n (uid ∷ uids) s h =
      enforce_all-keeps n uids _ (enforce_per_object-keeps k n uid s h)

  pub prime-keeps :
      (n : ℕ) (contents : Contents) (s : Store) → P n (loaded contents s) → P n (prime contents s)
  unfolding prime
  prime-keeps n contents s h =
      enforce_bounds-keeps k n _
        (enforce_all-keeps n (keys (loaded contents s).objects) (loaded contents s) h)
