-- ===== src/History/Store/Accounting.antt =====
-- The byte budget is the sum of the sizes of what is retained.
use pg_console.Prelude.{
  ℕ, zero, suc, ◌+◌, ◌≤◌, ◌≡◌, refl, some, List, [], ◌∷◌, ◌++◌, u64, arith, get_elem?,
}
use pg_console.History.Types.{Revision, Limits, Contents}
use pg_console.History.Store.Defs.{Store, new_store, revision_size, remove_at, evict_revision, push}
use pg_console.History.Store.Ops.{track, Call, record_calls}
use pg_console.History.Store.Commit.{
  find_revision, replace_revision, folded, rewrite, put_state, forget,
}
use pg_console.History.Store.Prime.{total_size, loaded, prime}
use pg_console.History.Store.Order.{find_revision-seq}
use pg_console.History.Store.Runs.{record_calls-keeps, prime-keeps}
use pg_console.History.Store.Stable.{IsStable}

abbrev pub IsAccounted : Store → Type 0
IsAccounted s = s.total_bytes ≡ total_size s.entries

total_size-append :
    (revs : List Revision) (rev : Revision)
    → total_size (revs ++ rev ∷ []) ≡ total_size revs + revision_size rev
unfolding total_size
total_size-append [] rev = omega arith
total_size-append (r ∷ revs) rev = omega (arith, total_size-append revs rev)

total_size-remove_at :
    (revs : List Revision) (i : ℕ) (rev : Revision)
    → get_elem? revs i ≡ some rev
    → total_size (remove_at i revs) + revision_size rev ≡ total_size revs
unfolding total_size remove_at
total_size-remove_at [] i rev e = absurd (ground arith)
total_size-remove_at (r ∷ revs) zero rev e = ground arith
total_size-remove_at (r ∷ revs) (suc i) rev e = ground (arith, total_size-remove_at revs i rev e)

total_size-replace :
    (revs : List Revision) (seq : ℕ) (last rev : Revision)
    → find_revision seq revs ≡ some last
    → rev.seq ≡ last.seq
    → total_size (replace_revision rev revs) + revision_size last
      ≡ total_size revs + revision_size rev
unfolding total_size find_revision replace_revision
total_size-replace [] seq last rev e q = absurd (ground arith)
total_size-replace (r ∷ revs) seq last rev e q =
    ground (arith, total_size-replace revs seq last rev, find_revision-seq revs seq last)

size-le-total :
    (revs : List Revision) (seq : ℕ) (last : Revision)
    → find_revision seq revs ≡ some last
    → revision_size last ≤ total_size revs
unfolding total_size find_revision
size-le-total [] seq last e = absurd (ground arith)
size-le-total (r ∷ revs) seq last e = ground (arith, size-le-total revs seq last)

pub accounting : IsStable (λ n s. IsAccounted s)
unfolding evict_revision push put_state track forget rewrite folded
accounting = record {
  weaken = λ n s h. h;
  evict = λ n i rev s e h. ground (arith, total_size-remove_at s.entries i rev e);
  push = λ n rev s h.
      ground (arith, total_size-append s.entries (record rev { seq = u64 (s.seq + 1) }));
  put = λ n uid state' state s e q h. h;
  track = λ n obs s h. h;
  forget = λ n uid s h. h;
  rewrite = λ n obs now seq last s e h. ground (
    arith,
    total_size-replace s.entries seq last (folded obs now last) e refl,
    size-le-total s.entries seq last e,
  );
  next = λ n s h. h;
}

pub new_store-IsAccounted : (limits : Limits) → IsAccounted (new_store limits)
unfolding new_store total_size
new_store-IsAccounted limits = refl

pub prime-IsAccounted : (contents : Contents) (s : Store) → IsAccounted (prime contents s)
unfolding loaded
prime-IsAccounted contents s = prime-keeps accounting 0 contents s refl

-- In a store that `NewStore` builds, or that `prime` fills from any contents, after any calls of
-- `Observe` and `Seed` the byte count is the sum of the sizes of the retained revisions.
pub record_calls-IsAccounted :
    (calls : List Call) (limits : Limits) (contents : Contents) (s : Store)
    → IsAccounted (record_calls calls (new_store limits))
      × IsAccounted (record_calls calls (prime contents s))
record_calls-IsAccounted calls limits contents s = (
  record_calls-keeps accounting 0 calls _ (new_store-IsAccounted limits),
  record_calls-keeps accounting 0 calls _ (prime-IsAccounted contents s),
)
