-- ===== src/History/Store/Bounds.antt =====
-- The retention bounds hold after every call.
use pg_console.Prelude.{
  ◌⊎◌, ◌&&◌, ℕ, zero, suc, ◌≤◌, ◌≡◌, refl, false, List, arith, length, ltb, inl, inr,
}
use pg_console.Prelude.Eq.{string_eq}
use pg_console.History.Types.{Limits, Contents}
use pg_console.History.Store.Defs.{Store, new_store, evict_revision, is_over, push}
use pg_console.History.Store.Ops.{track, Call, record_calls}
use pg_console.History.Store.Commit.{put_state, forget, rewrite}
use pg_console.History.Store.Prime.{total_size, prime, loaded, keys}
use pg_console.History.Store.Stable.{IsStable}
use pg_console.History.Store.Runs.{record_calls-keeps, enforce_all-keeps, prime-keeps}
use pg_console.History.Store.Accounting.{
  IsAccounted, accounting, new_store-IsAccounted, prime-IsAccounted,
}
use pg_console.History.Store.Within.{enforce_bounds-within, record_calls-within}

-- What the bounds of the limits say of a store. Zero is no bound.
pub record IsWithin (limits : Limits) (s : Store) : Type 0 where
  pub revisions : (limits.max_revisions ≡ 0) ⊎ (length s.entries ≤ limits.max_revisions)
  pub bytes : (limits.max_bytes ≡ 0) ⊎ (total_size s.entries ≤ limits.max_bytes)

within_or_zero : (limit n : ℕ) → (ltb 0 limit && ltb limit n) ≡ false → (limit ≡ 0) ⊎ (n ≤ limit)
within_or_zero zero n e = inl refl
within_or_zero (suc limit) n e = inr (ground arith)

is_over-IsWithin :
    (limits : Limits) (s : Store)
    → s.limits ≡ limits
    → IsAccounted s
    → is_over s ≡ false
    → IsWithin limits s
unfolding is_over
is_over-IsWithin limits s e h w = record {
  revisions = within_or_zero limits.max_revisions (length s.entries) (ground arith);
  bytes = within_or_zero limits.max_bytes (total_size s.entries) (ground arith);
}

same_limits : (limits : Limits) → IsStable (λ n s. s.limits ≡ limits)
unfolding evict_revision push put_state track forget rewrite
same_limits limits = record {
  weaken = λ n s h. h;
  evict = λ n i rev s e h. ground arith;
  push = λ n rev s h. h;
  put = λ n uid state' state s e q h. h;
  track = λ n obs s h. h;
  forget = λ n uid s h. h;
  rewrite = λ n obs now seq last s e h. h;
  next = λ n s h. h;
}

-- A new store, after any calls of `Observe` and `Seed`, retains at most `MaxRevisions` revisions of
-- at most `MaxBytes` bytes together, where these limits are not zero.
pub record_calls-IsWithin :
    (calls : List Call) (limits : Limits) → IsWithin limits (record_calls calls (new_store limits))
unfolding new_store is_over
record_calls-IsWithin calls limits =
    let s = new_store limits in
    let accounted = new_store-IsAccounted limits in
    is_over-IsWithin limits (record_calls calls s)
      (record_calls-keeps (same_limits limits) 0 calls s refl)
      (record_calls-keeps accounting 0 calls s accounted)
      (record_calls-within calls s accounted (ground arith))

prime-within : (contents : Contents) (s : Store) → is_over (prime contents s) ≡ false
unfolding prime
prime-within contents s = enforce_bounds-within _ (
    enforce_all-keeps accounting 0 (keys (loaded contents s).objects) (loaded contents s)
      (unfold loaded in refl))

-- Priming a store enforces the current limits on whatever was persisted: at most `MaxRevisions`
-- revisions of at most `MaxBytes` bytes together are left, where these limits are not zero, and
-- any calls of `Observe` and `Seed` keep that. Nothing is stated of `PerObject`.
pub prime-IsWithin :
    (calls : List Call) (contents : Contents) (s : Store)
    → IsWithin s.limits (record_calls calls (prime contents s))
prime-IsWithin calls contents s =
    let t = prime contents s in
    let accounted = prime-IsAccounted contents s in
    is_over-IsWithin s.limits (record_calls calls t)
      (record_calls-keeps (same_limits s.limits) 0 calls t
        (prime-keeps (same_limits s.limits) 0 contents s (unfold loaded in refl)))
      (record_calls-keeps accounting 0 calls t accounted)
      (record_calls-within calls t accounted (prime-within contents s))
