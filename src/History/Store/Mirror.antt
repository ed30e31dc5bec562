-- ===== src/History/Store/Mirror.antt =====
-- The calls of the persister against the store's table of objects.
pub mod Calls
pub mod Revisions
use pg_console.Prelude.{
  ℕ, ◌≡◌, refl, sym, ◌∙◌, ap, ◌⊎◌, Bool, true, false, not, ◌&&◌, Option, none, some, List, [], ◌∷◌,
  ◌++◌, String, arith, subst, if◌then◌else◌, inl, inr, ◌+◌, u64, Bool-cases, Option-cases,
}
use pg_console.Prelude.Eq.{string_eq, ◌==◌, ==_iff, ==_refl}
use pg_console.Prelude.Dict.{lookup, map_some, lookup-insert, lookup-remove, lookup-adjust}
use pg_console.History.Types.{
  Time, Observation, Revision, ObjectRecord, Mutation, append, update, evict, put_object,
  delete_object, mark_evicted,
}
use pg_console.History.Replay.{object_after, replay, replay-append}
use pg_console.History.Store.Defs.{
  ObjectState, to_record, Store, evict_revision, enforce_bounds, push, append_revision, mirror,
  forget_revision, count_revision,
}
use pg_console.History.Store.View.{view-enforce_bounds, view-append_revision}
use pg_console.History.Store.Ops.{
  delete_observed, delete_unobserved, delete_all, fresh_state, track, observe_new, same_hashes,
  transition, observe_known, observe_at, observe, observe_all, seed, Call, observed, seeded,
  record_call, record_calls, gone_uids, gone_revision,
}
use pg_console.History.Store.Commit.{
  revision_of, forget, committed, put_state, commit, rewrite, folded, next_generation,
  coalesce_into, may_coalesce, last_revision, coalesce, is_status,
}

abbrev pub record_of : Option ObjectState → Option ObjectRecord
record_of none = none
record_of (some o) = some (to_record o)

-- The record of an object, as the store has it and as the persister was told.
abbrev pub record_at : String → Store → Option ObjectRecord
record_at uid s = record_of (lookup uid s.objects)

abbrev pub told : {A : Type 0} → (Mutation → A → A) → A → Option (List Mutation) → A
told step start none = start
told step start (some log) = replay step log start

abbrev pub told_at : String → Store → Option ObjectRecord
told_at uid s = told (object_after uid) none s.journal

abbrev pub is_wired : Option (List Mutation) → Bool
is_wired none = false
is_wired (some log) = true

-- One more call.
pub told-mirror :
    {A : Type 0} (step : Mutation → A → A) (start : A) (m : Mutation)
    (journal : Option (List Mutation))
    → is_wired journal ≡ true
    → told step start (map_some (λ log. log ++ m ∷ []) journal) ≡ step m (told step start journal)
told-mirror step start m none w = absurd (ground (arith, w))
told-mirror step start m (some log) w = replay-append step log m start

-- A call that is not about the object.
pub told_at-other :
    (j : String) (m : Mutation) (journal : Option (List Mutation))
    → ((old : Option ObjectRecord) → object_after j m old ≡ old)
    → told (object_after j) none (map_some (λ log. log ++ m ∷ []) journal)
      ≡ told (object_after j) none journal
told_at-other j m none h = refl
told_at-other j m (some log) h =
    replay-append (object_after j) log m none ∙ h (replay (object_after j) log none)

pub is_wired-mirror :
    (m : Mutation) (journal : Option (List Mutation))
    → is_wired (map_some (λ log. log ++ m ∷ []) journal) ≡ is_wired journal
is_wired-mirror m none = refl
is_wired-mirror m (some log) = refl

record_of-count_revision :
    (seq : ℕ) (o : Option ObjectState) → record_of (map_some (count_revision seq) o) ≡ record_of o
unfolding count_revision
record_of-count_revision seq none = refl
record_of-count_revision seq (some o) = refl

record_of-forget_revision :
    (seq : ℕ) (o : Option ObjectState) → record_of (map_some (forget_revision seq) o) ≡ record_of o
unfolding forget_revision
record_of-forget_revision seq none = refl
record_of-forget_revision seq (some o) = refl

module _ (j : String) where
  -- What an append leaves alone.
  abbrev pub seen : Store → Option ObjectRecord × Option ObjectRecord × Bool
  seen s = (record_at j s, told_at j s, is_wired s.journal)

  seen-evict_revision :
      (i : ℕ) (rev : Revision) (s : Store) → seen (evict_revision i rev s) ≡ seen s
  unfolding evict_revision mirror
  seen-evict_revision i rev s =
      let log1 = map_some (λ log. log ++ evict rev.seq ∷ []) s.journal in
      let other1 = told_at-other j (evict rev.seq) s.journal (λ old. refl) in
      let other2 = told_at-other j mark_evicted log1 (λ old. refl) in
      ground (
        arith,
        lookup-adjust rev.uid j (forget_revision rev.seq) s.objects,
        record_of-forget_revision rev.seq (lookup j s.objects),
        other1,
        other2,
        is_wired-mirror (evict rev.seq) s.journal,
        is_wired-mirror mark_evicted log1,
      )

  seen-push : (rev : Revision) (s : Store) → seen (push rev s) ≡ seen s
  unfolding push mirror
  seen-push rev s = ground (
    arith,
    lookup-adjust rev.uid j (count_revision (u64 (s.seq + 1))) s.objects,
    record_of-count_revision (u64 (s.seq + 1)) (lookup j s.objects),
    told_at-other j (append (record rev { seq = u64 (s.seq + 1) })) s.journal (λ old. refl),
    is_wired-mirror (append (record rev { seq = u64 (s.seq + 1) })) s.journal,
  )

  pub seen-append_revision : (rev : Revision) (s : Store) → seen (append_revision rev s) ≡ seen s
  seen-append_revision rev s = view-append_revision seen seen-evict_revision rev s (seen-push rev s)

  pub seen-enforce_bounds : (s : Store) → seen (enforce_bounds s) ≡ seen s
  seen-enforce_bounds s = view-enforce_bounds seen seen-evict_revision s

  -- A persister is there, and was told of the object what the store has.
  pub record InStep (s : Store) : Type 0 where
    pub wired : is_wired s.journal ≡ true
    pub agrees : record_at j s ≡ told_at j s

  pub InStep-seen : (s t : Store) → seen t ≡ seen s → InStep s → InStep t
  InStep-seen s t e h = record {
    wired = ap (λ v. v.2) e ∙ h.wired;
    agrees = ap (λ v. v.0) e ∙ h.agrees ∙ sym (ap (λ v. v.1) e);
  }

  pub put_state-InStep :
      (uid : String) (o : ObjectState) (s : Store)
      → is_wired s.journal ≡ true
      → ((uid == j) ≡ true) ⊎ (record_at j s ≡ told_at j s)
      → InStep (put_state uid o s)
  unfolding put_state mirror
  put_state-InStep uid o s w h =
      let told_now = told-mirror (object_after j) none (put_object uid (to_record o)) s.journal w in
      let held = lookup-insert uid j o s.objects in
      record {
        wired = is_wired-mirror (put_object uid (to_record o)) s.journal ∙ w;
        agrees = elim h [ inl mine ↦ ground (arith, mine) | inr same ↦ ground (arith, same) ];
      }

  pub forget-InStep : (uid : String) (s : Store) → InStep s → InStep (forget uid s)
  unfolding forget mirror
  forget-InStep uid s h =
      let told_now = told-mirror (object_after j) none (delete_object uid) s.journal h.wired in
      let held = lookup-remove uid j s.objects in
      record {
        wired = is_wired-mirror (delete_object uid) s.journal ∙ h.wired;
        agrees = ground (arith, h.agrees);
      }

  pub commit-InStep :
      (obs : Observation) (now : Time) (r : ObjectRecord) (s : Store)
      → is_wired s.journal ≡ true
      → record_at obs.uid s ≡ some r
      → ((obs.uid == j) ≡ true) ⊎ (record_at j s ≡ told_at j s)
      → InStep (commit obs now s)
  unfolding commit
  commit-InStep obs now r s w known h = elim (Option-cases (lookup obs.uid s.objects)) [
    | inl e ↦ absurd (ground (arith, ap record_of e))
    | inr (o, e) ↦ rw (e, commit) (put_state-InStep obs.uid (committed obs now o) s w h)
  ]

  pub agrees-seen :
      (uid : String) (s t : Store)
      → seen t ≡ seen s
      → ((uid == j) ≡ true) ⊎ (record_at j s ≡ told_at j s)
      → ((uid == j) ≡ true) ⊎ (record_at j t ≡ told_at j t)
  agrees-seen uid s t e (inl mine) = inl mine
  agrees-seen uid s t e (inr same) = inr (ap (λ v. v.0) e ∙ same ∙ sym (ap (λ v. v.1) e))
