-- ===== src/History/Store/Current.antt =====
-- What the store last knew of each object, whatever it retains of its revisions.
use pg_console.Prelude.{
  ℕ, ◌≡◌, refl, sym, ◌∙◌, ap, Bool, false, not, ◌&&◌, Option, none, some, String, arith,
  if◌then◌else◌, inl, inr, Bool-cases, Option-cases,
}
use pg_console.Prelude.Eq.{string_eq, ◌==◌, ==_iff, ==_refl}
use pg_console.Prelude.Dict.{lookup, map_some, lookup-insert, lookup-remove, lookup-adjust}
use pg_console.History.Types.{Time, Observation, Revision}
use pg_console.History.Store.Defs.{
  ObjectState, Store, evict_revision, enforce_bounds, push, append_revision, mirror,
  forget_revision, count_revision,
}
use pg_console.History.Store.View.{view-enforce_bounds, view-append_revision}
use pg_console.History.Store.Ops.{
  delete_observed, fresh_state, track, observe_new, same_hashes, transition, observe_known,
  observe_at, observe,
}
use pg_console.History.Store.Commit.{
  forget, committed, put_state, commit, rewrite, folded, next_generation, coalesce_into,
  may_coalesce, last_revision, coalesce, is_status,
}

-- The hashes of an object and when it was last observed.
abbrev pub known : ObjectState → String × String × Time
known o = (o.spec_hash, o.status_hash, o.last_observed_at)

abbrev pub known_of : Option ObjectState → Option (String × String × Time)
known_of none = none
known_of (some o) = some (known o)

abbrev pub known_at : String → Store → Option (String × String × Time)
known_at uid s = known_of (lookup uid s.objects)

known_of-count_revision :
    (seq : ℕ) (o : Option ObjectState) → known_of (map_some (count_revision seq) o) ≡ known_of o
unfolding count_revision
known_of-count_revision seq none = refl
known_of-count_revision seq (some o) = refl

known_of-forget_revision :
    (seq : ℕ) (o : Option ObjectState) → known_of (map_some (forget_revision seq) o) ≡ known_of o
unfolding forget_revision
known_of-forget_revision seq none = refl
known_of-forget_revision seq (some o) = refl

known_at-evict_revision :
    (j : String) (i : ℕ) (rev : Revision) (s : Store)
    → known_at j (evict_revision i rev s) ≡ known_at j s
unfolding evict_revision mirror
known_at-evict_revision j i rev s = ground (
  arith,
  lookup-adjust rev.uid j (forget_revision rev.seq) s.objects,
  known_of-forget_revision rev.seq (lookup j s.objects),
)

known_at-enforce_bounds : (j : String) (s : Store) → known_at j (enforce_bounds s) ≡ known_at j s
known_at-enforce_bounds j s = view-enforce_bounds (known_at j) (known_at-evict_revision j) s

known_at-push : (j : String) (rev : Revision) (s : Store) → known_at j (push rev s) ≡ known_at j s
unfolding push mirror
known_at-push j rev s = elim (Bool-cases (rev.uid == j)) [
  | inl same ↦
      rw (lookup-adjust rev.uid j (count_revision _) s.objects, same)
        (known_of-count_revision _ (lookup j s.objects))
  | inr other ↦ rw (lookup-adjust rev.uid j (count_revision _) s.objects, other) refl
]

pub known_at-append_revision :
    (j : String) (rev : Revision) (s : Store) → known_at j (append_revision rev s) ≡ known_at j s
known_at-append_revision j rev s =
    view-append_revision (known_at j) (known_at-evict_revision j) rev s (known_at-push j rev s)

-- What is known after an observation that is not a deletion.
abbrev latest : Observation → Time → String → Store → Option (String × String × Time)
latest obs now j s =
    if obs.uid == j then some (obs.spec_hash, obs.status_hash, now) else known_at j s

known_at-put_state :
    (j uid : String) (o : ObjectState) (s : Store)
    → known_at j (put_state uid o s) ≡ (if uid == j then some (known o) else known_at j s)
unfolding put_state mirror
known_at-put_state j uid o s = ground (arith, lookup-insert uid j o s.objects)

latest-commit :
    (j : String) (obs : Observation) (now : Time) (k : String × String × Time) (s : Store)
    → known_at obs.uid s ≡ some k
    → known_at j (commit obs now s) ≡ latest obs now j s
unfolding commit committed
latest-commit j obs now k s h = elim (Option-cases (lookup obs.uid s.objects)) [
  | inl e ↦ absurd (ground (arith, ap known_of e))
  | inr (o, e) ↦ rw (e, commit) (known_at-put_state j obs.uid (committed obs now o) s)
]

latest-append :
    (j : String) (obs : Observation) (now : Time) (rev : Revision) (k : String × String × Time)
    (s : Store)
    → known_at obs.uid s ≡ some k
    → known_at j (commit obs now (append_revision rev s)) ≡ latest obs now j s
latest-append j obs now rev k s h =
    latest-commit j obs now k (append_revision rev s) (known_at-append_revision obs.uid rev s ∙ h)
    ∙ ap (λ old. if obs.uid == j then some (obs.spec_hash, obs.status_hash, now) else old)
        (known_at-append_revision j rev s)

known_at-track :
    (j : String) (obs : Observation) (s : Store)
    → known_at j (track obs s) ≡ (if obs.uid == j then some ("", "", 0) else known_at j s)
unfolding track fresh_state
known_at-track j obs s = ground (arith, lookup-insert obs.uid j (fresh_state obs) s.objects)

latest-observe_new :
    (j : String) (obs : Observation) (now : Time) (seed : Bool) (s : Store)
    → known_at j (observe_new obs now seed s) ≡ latest obs now j s
unfolding observe_new
latest-observe_new j obs now seed s =
    let tracked =
      known_at-track obs.uid obs s
      ∙ ap (λ b. if b then some ("", "", 0) else known_at obs.uid s) (==_refl obs.uid) in
    latest-append j obs now _ ("", "", 0) (track obs s) tracked
    ∙ ground (arith, known_at-track j obs s)

latest-coalesce_into :
    (j : String) (obs : Observation) (now : Time) (last : Revision) (k : String × String × Time)
    (s : Store)
    → known_at obs.uid s ≡ some k
    → known_at j (coalesce_into obs now last s) ≡ latest obs now j s
unfolding coalesce_into rewrite mirror
latest-coalesce_into j obs now last k s h =
    known_at-enforce_bounds j
      (next_generation (commit obs now (rewrite last (folded obs now last) s)))
    ∙ latest-commit j obs now k (rewrite last (folded obs now last) s) h

latest-coalesce :
    (j : String) (obs : Observation) (state : ObjectState) (now : Time) (k : String × String × Time)
    (s t : Store)
    → known_at obs.uid s ≡ some k
    → coalesce obs state now s ≡ some t
    → known_at j t ≡ latest obs now j s
unfolding coalesce
latest-coalesce j obs state now k s t h e = elim (Option-cases (last_revision state s)) [
  | inl none_left ↦ absurd (ground (arith, e, none_left))
  | inr (last, found) ↦ elim (Bool-cases (may_coalesce s.limits now last)) [
    | inl near ↦
        let folds : coalesce_into obs now last s ≡ t = ground (arith, e, found, near) in
        ap (known_at j) (sym folds) ∙ latest-coalesce_into j obs now last k s h
    | inr far ↦ absurd (ground (arith, e, found, far))
  ]
]

latest-observe_known :
    (j : String) (obs : Observation) (state : ObjectState) (now : Time) (seed : Bool) (s : Store)
    → lookup obs.uid s.objects ≡ some state
    → known_at j (observe_known obs state now seed s) ≡ latest obs now j s
unfolding observe_known
latest-observe_known j obs state now seed s e =
    let h = ap known_of e in
    let fresh : (rev : Revision)
        → known_at j (commit obs now (append_revision rev s)) ≡ latest obs now j s =
      λ rev. latest-append j obs now rev (known state) s h in
    elim (Bool-cases (same_hashes obs state)) [
      | inl same ↦
          rw (same, observe_known)
            (known_at-put_state j obs.uid (record state { last_observed_at = now }) s
              ∙ ground (
                arith,
                same,
                ==_iff obs.spec_hash state.spec_hash,
                ==_iff obs.status_hash state.status_hash,
              ))
      | inr changed ↦ elim (Bool-cases (is_status (transition obs state) && not seed)) [
        | inl foldable ↦ elim (Option-cases (coalesce obs state now s)) [
          | inl apart ↦ rw (changed, foldable, apart, observe_known) (fresh _)
          | inr (t, merged) ↦
              rw (changed, foldable, merged, observe_known)
                (latest-coalesce j obs state now (known state) s t h merged)
        ]
        | inr new ↦ rw (changed, new, observe_known) (fresh _)
      ]
    ]

pub known_at-forget :
    (j uid : String) (s : Store)
    → known_at j (forget uid s) ≡ (if uid == j then none else known_at j s)
unfolding forget mirror
known_at-forget j uid s = ground (arith, lookup-remove uid j s.objects)

known_at-delete_observed :
    (j : String) (obs : Observation) (now : Time) (s : Store)
    → known_at j (delete_observed obs now s) ≡ (if obs.uid == j then none else known_at j s)
unfolding delete_observed
known_at-delete_observed j obs now s = elim (Option-cases (lookup obs.uid s.objects)) [
  | inl e ↦ rw (e, delete_observed) (ground (arith, e, ==_iff obs.uid j))
  | inr (state, e) ↦
      rw (e, delete_observed)
        (known_at-forget j obs.uid _
          ∙ ap (λ old. if obs.uid == j then none else old) (known_at-append_revision j _ s))
]

pub known_at-observe_at :
    (obs : Observation) (now : Time) (seed : Bool) (s : Store) (j : String)
    → known_at j (observe_at obs now seed s) ≡ (
        if obs.uid == j
        then (if obs.deleted then none else some (obs.spec_hash, obs.status_hash, now))
        else known_at j s)
unfolding observe_at delete_observed
known_at-observe_at obs now seed s j = elim (Bool-cases obs.deleted) [
  | inl gone ↦ rw gone (known_at-delete_observed j obs now s)
  | inr there ↦ elim (Option-cases (lookup obs.uid s.objects)) [
    | inl e ↦ rw (there, e, observe_at) (latest-observe_new j obs now seed s)
    | inr (state, e) ↦ rw (there, e, observe_at) (latest-observe_known j obs state now seed s e)
  ]
]

-- An observation makes its hashes and its time what the store knows of the object, and a deletion
-- makes it unknown, whatever is folded or evicted; what is known of every other object is as it was.
pub known_at-observe :
    (obs : Observation) (now : Time) (s : Store) (j : String)
    → known_at j (observe obs now s) ≡ (
        if obs.uid == j
        then (if obs.deleted then none else some (obs.spec_hash, obs.status_hash, now))
        else known_at j s)
unfolding observe
known_at-observe obs now s j = known_at-observe_at obs now false s j
