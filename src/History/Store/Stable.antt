-- ===== src/History/Store/Stable.antt =====
-- What every operation of the store keeps, from what its writes keep. The number counts the
-- revisions that may still be appended: a property that holds while the sequence does not wrap
-- says so by it.
use pg_console.Prelude.{
  ℕ, zero, suc, ◌≡◌, refl, subst, Bool, false, some, String, arith, get_elem?, length, Bool-cases,
  Option-cases, inl, inr,
}
use pg_console.Prelude.Eq.{string_eq}
use pg_console.Prelude.Dict.{lookup}
use pg_console.History.Types.{Time, Observation, Revision}
use pg_console.History.Store.Defs.{
  ObjectState, Store, evict_revision, evict_at, is_over, enforce_loop, enforce_bounds, evict_first,
  index_of, enforce_per_object, push, append_revision,
}
use pg_console.History.Store.Ops.{
  delete_observed, delete_unobserved, track, observe_new, observe_fresh, observe_known, observe_at,
  observe, seed,
}
use pg_console.History.Store.Commit.{
  forget, committed, put_state, commit, find_revision, folded, rewrite, coalesce_into, coalesce,
  last_revision, next_generation,
}

pub record IsStable (P : ℕ → Store → Type 0) : Type 0 where
  pub weaken : (n : ℕ) (s : Store) → P (suc n) s → P n s
  pub evict :
      (n i : ℕ) (rev : Revision) (s : Store)
      → get_elem? s.entries i ≡ some rev
      → P n s
      → P n (evict_revision i rev s)
  pub push : (n : ℕ) (rev : Revision) (s : Store) → P (suc n) s → P n (push rev s)
  pub put :
      (n : ℕ) (uid : String) (state' state : ObjectState) (s : Store)
      → lookup uid s.objects ≡ some state
      → state'.last ≡ state.last
      → P n s
      → P n (put_state uid state' s)
  pub track : (n : ℕ) (obs : Observation) (s : Store) → P n s → P n (track obs s)
  pub forget : (n : ℕ) (uid : String) (s : Store) → P n s → P n (forget uid s)
  pub rewrite :
      (n : ℕ) (obs : Observation) (now : Time) (seq : ℕ) (last : Revision) (s : Store)
      → find_revision seq s.entries ≡ some last
      → P n s
      → P n (rewrite last (folded obs now last) s)
  pub next : (n : ℕ) (s : Store) → P n s → P n (next_generation s)

pub coalesce_target :
    (state : ObjectState) (s : Store) (last : Revision)
    → last_revision state s ≡ some last
    → (seq : ℕ) × (find_revision seq s.entries ≡ some last)
coalesce_target state s last found = elim (Option-cases state.last) [
  | inl e ↦ absurd (ground arith)
  | inr (seq, e) ↦ (seq, ground arith)
]

module _ {P : ℕ → Store → Type 0} (k : IsStable P) where
  evict_at-keeps : (n i : ℕ) (s : Store) → P n s → P n (evict_at i s)
  unfolding evict_at
  evict_at-keeps n i s h = elim (Option-cases (get_elem? s.entries i)) [
    | inl e ↦ rw (e, evict_at) h
    | inr (rev, e) ↦ rw (e, evict_at) (k.evict n i rev s e h)
  ]

  enforce_loop-keeps : (n fuel : ℕ) (s : Store) → P n s → P n (enforce_loop fuel s)
  unfolding enforce_loop
  enforce_loop-keeps n zero s h = h
  enforce_loop-keeps n (suc fuel) s h = elim (Bool-cases (is_over s)) [
    | inl e ↦ rw e (enforce_loop-keeps n fuel (evict_at 0 s) (evict_at-keeps n 0 s h))
    | inr e ↦ rw e h
  ]

  pub enforce_bounds-keeps : (n : ℕ) (s : Store) → P n s → P n (enforce_bounds s)
  unfolding enforce_bounds
  enforce_bounds-keeps n s h = enforce_loop-keeps n (length s.entries) s h

  evict_first-keeps : (n : ℕ) (uid : String) (s : Store) → P n s → P n (evict_first uid s)
  unfolding evict_first
  evict_first-keeps n uid s h = elim (Option-cases (index_of uid s.entries)) [
    | inl e ↦ rw (e, evict_first) h
    | inr (i, e) ↦ rw (e, evict_first) (evict_at-keeps n i s h)
  ]

  pub enforce_per_object-keeps :
      (n : ℕ) (uid : String) (s : Store) → P n s → P n (enforce_per_object uid s)
  unfolding enforce_per_object
  enforce_per_object-keeps n uid s h = ground (arith, evict_first-keeps n uid s h)

  append-keeps : (n : ℕ) (rev : Revision) (s : Store) → P (suc n) s → P n (append_revision rev s)
  unfolding append_revision
  append-keeps n rev s h =
      enforce_bounds-keeps n _ (enforce_per_object-keeps n rev.uid _ (k.push n rev s h))

  pub commit-keeps :
      (n : ℕ) (obs : Observation) (now : Time) (s : Store) → P n s → P n (commit obs now s)
  unfolding commit
  commit-keeps n obs now s h = elim (Option-cases (lookup obs.uid s.objects)) [
    | inl e ↦ rw (e, commit) h
    | inr (state, e) ↦
        rw (e, commit)
          (unfold committed in k.put n obs.uid (committed obs now state) state s e refl h)
  ]

  coalesce_into-keeps :
      (n : ℕ) (obs : Observation) (now : Time) (seq : ℕ) (last : Revision) (s : Store)
      → find_revision seq s.entries ≡ some last
      → P n s
      → P n (coalesce_into obs now last s)
  unfolding coalesce_into
  coalesce_into-keeps n obs now seq last s e h =
      enforce_bounds-keeps n _
        (k.next n _ (commit-keeps n obs now _ (k.rewrite n obs now seq last s e h)))

  delete_observed-keeps :
      (n : ℕ) (obs : Observation) (now : Time) (s : Store)
      → P (suc n) s
      → P n (delete_observed obs now s)
  unfolding delete_observed
  delete_observed-keeps n obs now s h = elim (Option-cases (lookup obs.uid s.objects)) [
    | inl e ↦ rw (e, delete_observed) (k.weaken n s h)
    | inr (state, e) ↦ rw (e, delete_observed) (k.forget n obs.uid _ (append-keeps n _ s h))
  ]

  pub delete_unobserved-keeps :
      (n : ℕ) (uid : String) (now : Time) (s : Store)
      → P (suc n) s
      → P n (delete_unobserved uid now s)
  unfolding delete_unobserved
  delete_unobserved-keeps n uid now s h = elim (Option-cases (lookup uid s.objects)) [
    | inl e ↦ rw (e, delete_unobserved) (k.weaken n s h)
    | inr (state, e) ↦ rw (e, delete_unobserved) (k.forget n uid _ (append-keeps n _ s h))
  ]

  observe_new-keeps :
      (n : ℕ) (obs : Observation) (now : Time) (seed : Bool) (s : Store)
      → P (suc n) s
      → P n (observe_new obs now seed s)
  unfolding observe_new
  observe_new-keeps n obs now seed s h =
      commit-keeps n obs now _ (append-keeps n _ _ (k.track (suc n) obs s h))

  observe_fresh-keeps :
      (n : ℕ) (obs : Observation) (state : ObjectState) (now : Time) (seed : Bool) (s : Store)
      → P (suc n) s
      → P n (observe_fresh obs state now seed s)
  observe_fresh-keeps n obs state now seed s h = commit-keeps n obs now _ (append-keeps n _ s h)

  coalesce-keeps :
      (n : ℕ) (obs : Observation) (state : ObjectState) (now : Time) (s t : Store)
      → coalesce obs state now s ≡ some t
      → P n s
      → P n t
  unfolding coalesce
  coalesce-keeps n obs state now s t e h = elim (Option-cases (last_revision state s)) [
    | inl lost ↦ absurd (ground arith)
    | inr (last, found) ↦
        let (seq, at) = coalesce_target state s last found in
        subst (P n) (ground arith) (coalesce_into-keeps n obs now seq last s at h)
  ]

  observe_known-keeps :
      (n : ℕ) (obs : Observation) (state : ObjectState) (now : Time) (seed : Bool) (s : Store)
      → lookup obs.uid s.objects ≡ some state
      → P (suc n) s
      → P n (observe_known obs state now seed s)
  unfolding observe_known
  observe_known-keeps n obs state now seed s e h =
      let same = k.put n obs.uid (record state { last_observed_at = now }) state s e refl kept in
      let fresh = observe_fresh-keeps n obs state now seed s h in
      elim (Option-cases (coalesce obs state now s)) [
        | inl p ↦ ground (arith, same, fresh)
        | inr (t, p) ↦ ground (arith, same, fresh, coalesce-keeps n obs state now s t p kept)
      ]
    where
      kept : P n s
      kept = k.weaken n s h

  pub observe_at-keeps :
      (n : ℕ) (obs : Observation) (now : Time) (seed : Bool) (s : Store)
      → P (suc n) s
      → P n (observe_at obs now seed s)
  unfolding observe_at
  observe_at-keeps n obs now seed s h = elim (Option-cases (lookup obs.uid s.objects)) [
    | inl e ↦
        ground (arith, delete_observed-keeps n obs now s h, observe_new-keeps n obs now seed s h)
    | inr (state, e) ↦
        ground (
          arith,
          delete_observed-keeps n obs now s h,
          observe_known-keeps n obs state now seed s e h,
        )
  ]

  pub observe-keeps :
      (n : ℕ) (obs : Observation) (now : Time) (s : Store) → P (suc n) s → P n (observe obs now s)
  unfolding observe
  observe-keeps n obs now s h = observe_at-keeps n obs now false s h
