-- ===== src/History/Store/Mirror/Calls.antt =====
-- The table of objects stays in step with the persister over every call.
use pg_console.Prelude.{
  ◌≡◌, refl, ◌∙◌, ap, ◌⊎◌, Bool, true, false, not, ◌&&◌, some, List, [], ◌∷◌, String, arith, subst,
  inl, inr, Bool-cases, Option-cases,
}
use pg_console.Prelude.Eq.{string_eq, ◌==◌, ==_refl}
use pg_console.Prelude.Dict.{lookup, lookup-insert}
use pg_console.History.Types.{Time, Observation, Revision, ObjectRecord, update}
use pg_console.History.Store.Defs.{
  ObjectState, to_record, Store, enforce_bounds, append_revision, mirror,
}
use pg_console.History.Store.Ops.{
  delete_observed, delete_unobserved, delete_all, fresh_state, track, observe_new, same_hashes,
  transition, observe_known, observe_at, observe, observe_all, seed, Call, observed, seeded,
  record_call, record_calls, gone_uids,
}
use pg_console.History.Store.Commit.{
  revision_of, forget, commit, rewrite, folded, next_generation, coalesce_into, may_coalesce,
  last_revision, coalesce, is_status,
}
use pg_console.History.Store.Mirror.{
  record_of, record_at, told_at, is_wired, is_wired-mirror, told_at-other, seen,
  seen-append_revision, seen-enforce_bounds, InStep, InStep-seen, put_state-InStep, forget-InStep,
  commit-InStep, agrees-seen,
}

record_at-append_revision :
    (j : String) (rev : Revision) (s : Store) → record_at j (append_revision rev s) ≡ record_at j s
record_at-append_revision j rev s = ap (λ v. v.0) (seen-append_revision j rev s)

module _ (j : String) where
  appended-InStep :
      (obs : Observation) (now : Time) (rev : Revision) (r : ObjectRecord) (s : Store)
      → is_wired s.journal ≡ true
      → record_at obs.uid s ≡ some r
      → ((obs.uid == j) ≡ true) ⊎ (record_at j s ≡ told_at j s)
      → InStep j (commit obs now (append_revision rev s))
  appended-InStep obs now rev r s w known h =
      let same = seen-append_revision j rev s in
      commit-InStep j obs now r (append_revision rev s) (ap (λ v. v.2) same ∙ w)
        (record_at-append_revision obs.uid rev s ∙ known)
        (agrees-seen j obs.uid s (append_revision rev s) same h)

  observe_new-InStep :
      (obs : Observation) (now : Time) (seed : Bool) (s : Store)
      → InStep j s
      → InStep j (observe_new obs now seed s)
  unfolding observe_new track
  observe_new-InStep obs now seed s h =
      appended-InStep obs now _ (to_record (fresh_state obs)) (track obs s) h.wired
        (ground (arith, lookup-insert obs.uid obs.uid (fresh_state obs) s.objects, ==_refl obs.uid))
        (elim (Bool-cases (obs.uid == j)) [
          | inl mine ↦ inl mine
          | inr other ↦
              inr (ground (arith, lookup-insert obs.uid j (fresh_state obs) s.objects, h.agrees))
        ])

  seen-rewrite : (last rev : Revision) (s : Store) → seen j (rewrite last rev s) ≡ seen j s
  unfolding rewrite mirror
  seen-rewrite last rev s = ground (
    arith,
    told_at-other j (update rev) s.journal (λ old. refl),
    is_wired-mirror (update rev) s.journal,
  )

  coalesce_into-InStep :
      (obs : Observation) (now : Time) (last : Revision) (r : ObjectRecord) (s : Store)
      → record_at obs.uid s ≡ some r
      → InStep j s
      → InStep j (coalesce_into obs now last s)
  unfolding coalesce_into
  coalesce_into-InStep obs now last r s known h =
      let t = rewrite last (folded obs now last) s in
      let in_t = InStep-seen j s t (seen-rewrite last (folded obs now last) s) h in
      let committed_t =
        commit-InStep j obs now r t in_t.wired (unfold rewrite mirror in known) (inr in_t.agrees) in
      InStep-seen j (next_generation (commit obs now t))
        (enforce_bounds (next_generation (commit obs now t)))
        (seen-enforce_bounds j (next_generation (commit obs now t)))
        (record { wired = committed_t.wired; agrees = committed_t.agrees })

  coalesce-InStep :
      (obs : Observation) (state : ObjectState) (now : Time) (r : ObjectRecord) (s t : Store)
      → record_at obs.uid s ≡ some r
      → InStep j s
      → coalesce obs state now s ≡ some t
      → InStep j t
  unfolding coalesce
  coalesce-InStep obs state now r s t known h e = elim (Option-cases (last_revision state s)) [
    | inl none_left ↦ absurd (ground (arith, e, none_left))
    | inr (last, found) ↦ elim (Bool-cases (may_coalesce s.limits now last)) [
      | inl near ↦
          let folds : coalesce_into obs now last s ≡ t = ground (arith, e, found, near) in
          subst (InStep j) folds (coalesce_into-InStep obs now last r s known h)
      | inr far ↦ absurd (ground (arith, e, found, far))
    ]
  ]

  observe_known-InStep :
      (obs : Observation) (state : ObjectState) (now : Time) (seed : Bool) (s : Store)
      → lookup obs.uid s.objects ≡ some state
      → InStep j s
      → InStep j (observe_known obs state now seed s)
  unfolding observe_known
  observe_known-InStep obs state now seed s e h =
      let known = ap record_of e in
      let fresh =
        appended-InStep obs now
          (revision_of obs (transition obs state) now state.last_observed_at seed) (to_record state)
          s h.wired known (inr h.agrees) in
      elim (Bool-cases (same_hashes obs state)) [
        | inl same ↦
            rw (same, observe_known)
              (put_state-InStep j obs.uid (record state { last_observed_at = now }) s h.wired
                (inr h.agrees))
        | inr changed ↦ elim (Bool-cases (is_status (transition obs state) && not seed)) [
          | inl foldable ↦ elim (Option-cases (coalesce obs state now s)) [
            | inl apart ↦ rw (changed, foldable, apart, observe_known) fresh
            | inr (t, merged) ↦
                rw (changed, foldable, merged, observe_known)
                  (coalesce-InStep obs state now (to_record state) s t known h merged)
          ]
          | inr new ↦ rw (changed, new, observe_known) fresh
        ]
      ]

  dropped-InStep :
      (uid : String) (rev : Revision) (s : Store)
      → InStep j s
      → InStep j (forget uid (append_revision rev s))
  dropped-InStep uid rev s h =
      forget-InStep j uid (append_revision rev s)
        (InStep-seen j s (append_revision rev s) (seen-append_revision j rev s) h)

  delete_observed-InStep :
      (obs : Observation) (now : Time) (s : Store)
      → InStep j s
      → InStep j (delete_observed obs now s)
  unfolding delete_observed
  delete_observed-InStep obs now s h = elim (Option-cases (lookup obs.uid s.objects)) [
    | inl e ↦ rw (e, delete_observed) h
    | inr (state, e) ↦ rw (e, delete_observed) (dropped-InStep obs.uid _ s h)
  ]

  delete_unobserved-InStep :
      (uid : String) (now : Time) (s : Store) → InStep j s → InStep j (delete_unobserved uid now s)
  unfolding delete_unobserved
  delete_unobserved-InStep uid now s h = elim (Option-cases (lookup uid s.objects)) [
    | inl e ↦ rw (e, delete_unobserved) h
    | inr (state, e) ↦ rw (e, delete_unobserved) (dropped-InStep uid _ s h)
  ]

  observe_at-InStep :
      (obs : Observation) (now : Time) (seed : Bool) (s : Store)
      → InStep j s
      → InStep j (observe_at obs now seed s)
  unfolding observe_at
  observe_at-InStep obs now seed s h = elim (Bool-cases obs.deleted) [
    | inl gone ↦ simp gone (delete_observed-InStep obs now s h)
    | inr there ↦ elim (Option-cases (lookup obs.uid s.objects)) [
      | inl e ↦ rw (there, e, observe_at) (observe_new-InStep obs now seed s h)
      | inr (state, e) ↦ rw (there, e, observe_at) (observe_known-InStep obs state now seed s e h)
    ]
  ]

  delete_all-InStep :
      (uids : List String) (now : Time) (s : Store) → InStep j s → InStep j (delete_all uids now s)
  unfolding delete_all
  delete_all-InStep [] now s h = h
  delete_all-InStep (uid ∷ uids) now s h =
      delete_all-InStep uids now _ (delete_unobserved-InStep uid now s h)

  observe_all-InStep :
      (listing : List Observation) (now : Time) (s : Store)
      → InStep j s
      → InStep j (observe_all listing now s)
  unfolding observe_all
  observe_all-InStep [] now s h = h
  observe_all-InStep (obs ∷ rest) now s h =
      observe_all-InStep rest now _ (observe_at-InStep obs now true s h)

  pub record_calls-InStep :
      (calls : List Call) (s : Store) → InStep j s → InStep j (record_calls calls s)
  unfolding record_calls record_call observe seed
  record_calls-InStep [] s h = h
  record_calls-InStep (observed obs now ∷ calls) s h =
      record_calls-InStep calls _ (observe_at-InStep obs now false s h)
  record_calls-InStep (seeded scope listing now ∷ calls) s h =
      record_calls-InStep calls _
        (observe_all-InStep listing now _ (delete_all-InStep (gone_uids scope listing s) now s h))
