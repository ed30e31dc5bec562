-- ===== src/History/Journal/Loaded.antt =====
-- What `Load` gives back of the revisions.
use pg_console.Prelude.{
  ℕ, ◌^◌, ◌<◌, ◌≤◌, ◌≡◌, refl, sym, ap, ◌∙◌, Bool, true, false, none, some, List, [], ◌∷◌, ◌++◌,
  arith, eqb, eqb_iff, inl, inr, Bool-cases, if◌then◌else◌,
}
use mathlib.Core.List.{append-nil, append_assoc}
use pg_console.Prelude.Eq.{◌==◌, ==_iff, ==_refl, nat_eq, string_eq, list_eq}
use pg_console.Prelude.Dict.{lookup}
use pg_console.History.Types.{Bytes, Revision}
use pg_console.History.Journal.{seq_key, uint64_of, bytes_lt, IsAbove, IsOrdered, Bbolt}
use pg_console.History.Journal.Keys.{uint64_of-seq_key, seq_key_injective}
use pg_console.History.Journal.Cursor.{seq_key_mono, lookup-IsAbove}
use pg_console.History.Journal.Load.{later, load_revisions, returned, has_seq}
use pg_console.History.Journal.Keyed.{HoldsRevision}
use pg_console.History.Journal.Written.{decoded}
use pg_console.History.Store.Commit.{find_revision}
use pg_console.History.Store.Order.{Ascending, find-beyond}

unfoldable pub newest : ℕ → List Revision → ℕ
newest s [] = s
newest s (rev ∷ revs) = newest rev.seq revs

own_has_seq : (key : Bytes) (seq : ℕ) → key ≡ seq_key seq → has_seq key ≡ true
unfolding has_seq seq_key
own_has_seq key seq own = rw own refl

module _ (db : Bbolt) where
  abbrev EntriesHold : List (Bytes × db.Json) → Type 0
  EntriesHold es = (k : Bytes) (v : db.Json) → lookup k es ≡ some v → HoldsRevision db k v

  tail-EntriesHold :
      (k : Bytes) (v : db.Json) (es : List (Bytes × db.Json))
      → IsAbove k es
      → EntriesHold ((k, v) ∷ es)
      → EntriesHold es
  unfolding lookup
  tail-EntriesHold k v es above hold j u at = elim (Bool-cases (k == j)) [
    | inl same ↦ absurd (ground (arith, at, (==_iff k j).0 same, lookup-IsAbove k es above))
    | inr other ↦ hold j u (rw other at)
  ]

  above_seq :
      (key : Bytes) (s seq : ℕ)
      → key ≡ seq_key seq
      → s < 2 ^ 64
      → seq < 2 ^ 64
      → bytes_lt (seq_key s) key ≡ true
      → s < seq
  above_seq key s seq own hs fits below = seq_key_mono s seq hs fits (rw (sym own) below)

  counter :
      (key : Bytes) (s seq : ℕ)
      → key ≡ seq_key seq
      → seq < 2 ^ 64
      → s < seq
      → later (uint64_of key) s ≡ seq
  counter key s seq own fits less = rw own (rw (uint64_of-seq_key seq fits) (ground (arith, less)))

  -- The loop of `Load` over the cursor, from a counter below every key.
  record IsLoading (es : List (Bytes × db.Json)) (s : ℕ) : Type 0 where
    loaded : List Revision
    loads :
        (revs : List Revision)
        → load_revisions db es revs s ≡ returned (revs ++ loaded, newest s loaded)
    ascends : Ascending s loaded (newest s loaded)
    fits : newest s loaded < 2 ^ 64
    finds : (k : ℕ) → k < 2 ^ 64 → find_revision k loaded ≡ decoded db (lookup (seq_key k) es)

  load_revisions_next :
      (key : Bytes) (v : db.Json) (rev : Revision) (es : List (Bytes × db.Json))
      (revs : List Revision) (counted : ℕ)
      → db.revision_of_json v ≡ some rev
      → has_seq key ≡ true
      → load_revisions db ((key, v) ∷ es) revs counted
        ≡ load_revisions db es (revs ++ rev ∷ []) (later (uint64_of key) counted)
  unfolding load_revisions
  load_revisions_next key v rev es revs counted decodes long =
      rw (decodes, load_revisions, long) refl

  same_entry :
      (key : Bytes) (seq k : ℕ)
      → key ≡ seq_key seq
      → seq < 2 ^ 64
      → k < 2 ^ 64
      → (key == seq_key k) ≡ eqb seq k
  same_entry key seq k own fits hk =
      let same_seq : key ≡ seq_key k → seq ≡ k =
        λ e. seq_key_injective seq k fits hk (sym own ∙ e) in
      let same_key : seq ≡ k → key ≡ seq_key k = λ e. own ∙ ap seq_key e in
      ground (arith, same_seq, same_key, eqb_iff seq k, ==_iff key (seq_key k))

  find_entry :
      (key : Bytes) (v : db.Json) (rev : Revision) (es : List (Bytes × db.Json))
      (loaded : List Revision) (k : ℕ)
      → db.revision_of_json v ≡ some rev
      → key ≡ seq_key rev.seq
      → rev.seq < 2 ^ 64
      → k < 2 ^ 64
      → find_revision k loaded ≡ decoded db (lookup (seq_key k) es)
      → find_revision k (rev ∷ loaded) ≡ decoded db (lookup (seq_key k) ((key, v) ∷ es))
  unfolding find_revision lookup
  find_entry key v rev es loaded k decodes own fits hk later_ones =
      rw (same_entry key rev.seq k own fits hk) (entry_cases (eqb rev.seq k))
    where
      entry_cases :
          (b : Bool)
          → (if b then some rev else find_revision k loaded)
            ≡ decoded db (if b then some v else lookup (seq_key k) es)
      entry_cases true = sym decodes
      entry_cases false = later_ones

  module _ (key : Bytes) (v : db.Json) (rev : Revision) (es : List (Bytes × db.Json)) (s : ℕ)
      (decodes : db.revision_of_json v ≡ some rev) (own : key ≡ seq_key rev.seq)
      (fits : rev.seq < 2 ^ 64) (less : s < rev.seq) (more : IsLoading es rev.seq) where
    cons-IsLoading : IsLoading ((key, v) ∷ es) s
    unfolding newest
    cons-IsLoading = record {
      loaded = rev ∷ more.loaded;
      loads = λ revs.
          load_revisions_next key v rev es revs s decodes (own_has_seq key rev.seq own)
          ∙ ap (load_revisions db es (revs ++ rev ∷ [])) (counter key s rev.seq own fits less)
          ∙ more.loads (revs ++ rev ∷ [])
          ∙ ap (λ all. returned (all, newest rev.seq more.loaded))
              (append_assoc revs (rev ∷ []) more.loaded);
      ascends = (less, more.ascends);
      fits = more.fits;
      finds = λ k hk. find_entry key v rev es more.loaded k decodes own fits hk (more.finds k hk);
    }

  held_here :
      (key : Bytes) (v : db.Json) (es : List (Bytes × db.Json))
      → EntriesHold ((key, v) ∷ es)
      → HoldsRevision db key v
  unfolding lookup
  held_here key v es hold = hold key v (rw (==_refl key) refl)

  loading :
      (es : List (Bytes × db.Json)) (s : ℕ)
      → s < 2 ^ 64
      → IsAbove (seq_key s) es
      → EntriesHold es
      → IsLoading es s
  unfolding load_revisions newest lookup find_revision IsAbove
  loading [] s hs above hold = record {
    loaded = [];
    loads = λ revs. ap (λ all. returned (all, s)) (sym (append-nil revs));
    ascends = omega arith;
    fits = hs;
    finds = λ k hk. refl;
  }
  loading ((key, v) ∷ es) s hs (below, above) hold =
      let held = held_here key v es hold in
      cons-IsLoading key v held.rev es s held.decodes held.own_key held.fits
        (above_seq key s held.rev.seq held.own_key hs held.fits below)
        (loading es held.rev.seq held.fits (rw (sym held.own_key) above)
          (tail-EntriesHold key v es above hold))

-- Sequence numbers that ascend, from any first one.
unfoldable pub IsRising : List Revision → Type 0
IsRising [] = Unit
IsRising (rev ∷ revs) = (hi : ℕ) × Ascending rev.seq revs hi

-- What `Load` collects from the cursor.
pub record LoadsRevisions (db : Bbolt) (es : List (Bytes × db.Json)) : Type 0 where
  pub loaded : List Revision
  pub counted : ℕ
  pub loads : load_revisions db es [] 0 ≡ returned (loaded, counted)
  pub rises : IsRising loaded
  pub beyond : (k : ℕ) → 2 ^ 64 ≤ k → find_revision k loaded ≡ none
  pub finds : (k : ℕ) → k < 2 ^ 64 → find_revision k loaded ≡ decoded db (lookup (seq_key k) es)

counter_start :
    (key : Bytes) (seq : ℕ) → key ≡ seq_key seq → seq < 2 ^ 64 → later (uint64_of key) 0 ≡ seq
counter_start key seq own fits = rw own (rw (uint64_of-seq_key seq fits) (ground arith))

find-beyond_head :
    (rev : Revision) (revs : List Revision) (hi k : ℕ)
    → Ascending rev.seq revs hi
    → rev.seq < k
    → hi < k
    → find_revision k (rev ∷ revs) ≡ none
unfolding find_revision
find-beyond_head rev revs hi k up head high =
    ground (arith, head, find-beyond rev.seq revs hi k up (omega (arith, head)) high)

pub loading_all :
    (db : Bbolt) (es : List (Bytes × db.Json))
    → IsOrdered es
    → EntriesHold db es
    → LoadsRevisions db es
unfolding IsOrdered IsRising newest find_revision lookup load_revisions
loading_all db [] ordered hold = record {
  loaded = [];
  counted = 0;
  loads = refl;
  rises = tt;
  beyond = λ k hk. refl;
  finds = λ k hk. refl;
}
loading_all db ((key, v) ∷ es) above hold =
    let held = held_here db key v es hold in
    let more =
      loading db es held.rev.seq held.fits (rw (sym held.own_key) above)
        (tail-EntriesHold db key v es above hold) in
    record {
      loaded = held.rev ∷ more.loaded;
      counted = newest held.rev.seq more.loaded;
      loads =
          load_revisions_next db key v held.rev es [] 0 held.decodes
            (own_has_seq key held.rev.seq held.own_key)
          ∙ ap (load_revisions db es (held.rev ∷ []))
              (counter_start key held.rev.seq held.own_key held.fits)
          ∙ more.loads (held.rev ∷ []);
      rises = (newest held.rev.seq more.loaded, more.ascends);
      beyond = λ k hk.
          find-beyond_head held.rev more.loaded _ k more.ascends (omega (arith, held.fits, hk))
            (omega (arith, more.fits, hk));
      finds = λ k hk.
          find_entry db key v held.rev es more.loaded k held.decodes held.own_key held.fits hk
            (more.finds k hk);
    }
