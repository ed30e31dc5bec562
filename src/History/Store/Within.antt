-- ===== src/History/Store/Within.antt =====
-- No operation leaves the store over its total bounds.
use pg_console.Prelude.{
  ◌∙◌, ℕ, zero, suc, ◌-◌, ◌≤◌, ◌≡◌, refl, Bool, true, false, none, some, List, [], ◌∷◌, String,
  arith, get_elem?, length, Option-cases, inl, inr,
}
use pg_console.Prelude.Eq.{string_eq}
use pg_console.Prelude.Dict.{lookup}
use pg_console.History.Types.{Time, Observation, Revision}
use pg_console.History.Store.Defs.{
  ObjectState, Store, remove_at, evict_revision, evict_at, is_over, enforce_loop, enforce_bounds,
  push, append_revision,
}
use pg_console.History.Store.Ops.{
  track, delete_observed, delete_unobserved, observe_new, observe_fresh, observe_known, observe_at,
  delete_all, observe_all, Call, record_call, record_calls, observed, seeded, gone_uids,
}
use pg_console.History.Store.Commit.{
  put_state, commit, committed, forget, coalesce_into, rewrite, folded, coalesce, last_revision,
  find_revision, next_generation,
}
use pg_console.History.Store.Prime.{total_size}
use pg_console.History.Store.Stable.{
  enforce_per_object-keeps, observe_at-keeps, delete_unobserved-keeps, coalesce_target,
  commit-keeps,
}
use pg_console.History.Store.Runs.{delete_all-keeps, record_call-keeps}
use pg_console.History.Store.Accounting.{IsAccounted, accounting}

length-remove_first : (revs : List Revision) → length (remove_at 0 revs) ≡ length revs - 1
unfolding remove_at
length-remove_first [] = omega arith
length-remove_first (r ∷ revs) = omega arith

first_of_none : (revs : List Revision) → get_elem? revs 0 ≡ none → length revs ≡ 0
first_of_none [] e = omega arith
first_of_none (r ∷ revs) e = absurd (ground arith)

total_size_empty : (revs : List Revision) → length revs ≡ 0 → total_size revs ≡ 0
unfolding total_size
total_size_empty [] e = omega arith
total_size_empty (r ∷ revs) e = absurd (omega arith)

length-evict_first : (s : Store) → length (evict_at 0 s).entries ≡ length s.entries - 1
unfolding evict_at evict_revision
length-evict_first s = ground (arith, length-remove_first s.entries, first_of_none s.entries)

empty_is_not_over : (s : Store) → IsAccounted s → length s.entries ≡ 0 → is_over s ≡ false
unfolding is_over
empty_is_not_over s h e = ground (arith, total_size_empty s.entries e)

evict_at-IsAccounted : (i : ℕ) (s : Store) → IsAccounted s → IsAccounted (evict_at i s)
unfolding evict_at
evict_at-IsAccounted i s h = elim (Option-cases (get_elem? s.entries i)) [
  | inl e ↦ rw (e, evict_at) h
  | inr (rev, e) ↦ rw (e, evict_at) (accounting.evict 0 i rev s e h)
]

-- As many rounds as there are entries are enough for the loop to end by its test.
enforce_loop-within :
    (fuel : ℕ) (s : Store)
    → IsAccounted s
    → length s.entries ≤ fuel
    → is_over (enforce_loop fuel s) ≡ false
unfolding enforce_loop
enforce_loop-within zero s h e = empty_is_not_over s h (omega arith)
enforce_loop-within (suc fuel) s h e =
    let rest =
      enforce_loop-within fuel (evict_at 0 s) (evict_at-IsAccounted 0 s h)
        (omega (arith, length-evict_first s)) in
    ground (arith, rest)

pub enforce_bounds-within : (s : Store) → IsAccounted s → is_over (enforce_bounds s) ≡ false
unfolding enforce_bounds
enforce_bounds-within s h = enforce_loop-within (length s.entries) s h (omega arith)

-- What `is_over` reads is the limits, the entries and the byte count.
pub same_is_over :
    (s t : Store)
    → t.limits ≡ s.limits
    → t.entries ≡ s.entries
    → t.total_bytes ≡ s.total_bytes
    → is_over t ≡ is_over s
unfolding is_over
same_is_over s t l e b = rw (l, e, b)

put-within :
    (uid : String) (state : ObjectState) (s : Store) → is_over (put_state uid state s) ≡ is_over s
unfolding put_state is_over
put-within uid state s = refl

commit-within :
    (obs : Observation) (now : Time) (s : Store) → is_over (commit obs now s) ≡ is_over s
unfolding commit
commit-within obs now s = elim (Option-cases (lookup obs.uid s.objects)) [
  | inl e ↦ rw (e, commit)
  | inr (state, e) ↦ rw (e, commit) (put-within obs.uid (committed obs now state) s)
]

forget-within : (uid : String) (s : Store) → is_over (forget uid s) ≡ is_over s
unfolding forget is_over
forget-within uid s = refl

append-within :
    (rev : Revision) (s : Store) → IsAccounted s → is_over (append_revision rev s) ≡ false
unfolding append_revision
append-within rev s h =
    enforce_bounds-within _
      (enforce_per_object-keeps accounting 0 rev.uid (push rev s) (accounting.push 0 rev s h))

coalesce_into-within :
    (obs : Observation) (now : Time) (seq : ℕ) (last : Revision) (s : Store)
    → find_revision seq s.entries ≡ some last
    → IsAccounted s
    → is_over (coalesce_into obs now last s) ≡ false
unfolding coalesce_into
coalesce_into-within obs now seq last s at h =
    let rewritten = rewrite last (folded obs now last) s in
    let done = commit obs now rewritten in
    enforce_bounds-within (next_generation done) (
      accounting.next 0 done (
        commit-keeps accounting 0 obs now rewritten (accounting.rewrite 0 obs now seq last s at h)))

coalesce-within :
    (obs : Observation) (state : ObjectState) (now : Time) (s t : Store)
    → coalesce obs state now s ≡ some t
    → IsAccounted s
    → is_over t ≡ false
unfolding coalesce
coalesce-within obs state now s t e h = elim (Option-cases (last_revision state s)) [
  | inl lost ↦ absurd (ground arith)
  | inr (last, found) ↦
      let (seq, at) = coalesce_target state s last found in
      ground (arith, coalesce_into-within obs now seq last s at h)
]

delete_observed-within :
    (obs : Observation) (now : Time) (s : Store)
    → IsAccounted s
    → is_over s ≡ false
    → is_over (delete_observed obs now s) ≡ false
unfolding delete_observed
delete_observed-within obs now s h w = elim (Option-cases (lookup obs.uid s.objects)) [
  | inl e ↦ rw (e, delete_observed) w
  | inr (state, e) ↦ rw (e, delete_observed) (forget-within obs.uid _ ∙ append-within _ s h)
]

delete_unobserved-within :
    (uid : String) (now : Time) (s : Store)
    → IsAccounted s
    → is_over s ≡ false
    → is_over (delete_unobserved uid now s) ≡ false
unfolding delete_unobserved
delete_unobserved-within uid now s h w = elim (Option-cases (lookup uid s.objects)) [
  | inl e ↦ rw (e, delete_unobserved) w
  | inr (state, e) ↦ rw (e, delete_unobserved) (forget-within uid _ ∙ append-within _ s h)
]

observe_new-within :
    (obs : Observation) (now : Time) (seeding : Bool) (s : Store)
    → IsAccounted s
    → is_over (observe_new obs now seeding s) ≡ false
unfolding observe_new
observe_new-within obs now seeding s h =
    commit-within obs now _ ∙ append-within _ (track obs s) (accounting.track 0 obs s h)

observe_known-within :
    (obs : Observation) (state : ObjectState) (now : Time) (seeding : Bool) (s : Store)
    → IsAccounted s
    → is_over s ≡ false
    → is_over (observe_known obs state now seeding s) ≡ false
unfolding observe_known
observe_known-within obs state now seeding s h w =
    let same = put-within obs.uid (record state { last_observed_at = now }) s ∙ w in
    let fresh : is_over (observe_fresh obs state now seeding s) ≡ false =
      commit-within obs now _ ∙ append-within _ s h in
    elim (Option-cases (coalesce obs state now s)) [
      | inl p ↦ ground (arith, same, fresh)
      | inr (t, p) ↦ ground (arith, same, fresh, coalesce-within obs state now s t p h)
    ]

observe_at-within :
    (obs : Observation) (now : Time) (seeding : Bool) (s : Store)
    → IsAccounted s
    → is_over s ≡ false
    → is_over (observe_at obs now seeding s) ≡ false
unfolding observe_at
observe_at-within obs now seeding s h w =
    let removed = delete_observed-within obs now s h w in
    elim (Option-cases (lookup obs.uid s.objects)) [
      | inl e ↦ ground (arith, removed, observe_new-within obs now seeding s h)
      | inr (state, e) ↦ ground (arith, removed, observe_known-within obs state now seeding s h w)
    ]

delete_all-within :
    (uids : List String) (now : Time) (s : Store)
    → IsAccounted s
    → is_over s ≡ false
    → is_over (delete_all uids now s) ≡ false
unfolding delete_all
delete_all-within [] now s h w = w
delete_all-within (uid ∷ uids) now s h w =
    delete_all-within uids now (delete_unobserved uid now s)
      (delete_unobserved-keeps accounting 0 uid now s h) (delete_unobserved-within uid now s h w)

observe_all-within :
    (listing : List Observation) (now : Time) (s : Store)
    → IsAccounted s
    → is_over s ≡ false
    → is_over (observe_all listing now s) ≡ false
unfolding observe_all
observe_all-within [] now s h w = w
observe_all-within (obs ∷ rest) now s h w =
    observe_all-within rest now (observe_at obs now true s)
      (observe_at-keeps accounting 0 obs now true s h) (observe_at-within obs now true s h w)

record_call-within :
    (call : Call) (s : Store)
    → IsAccounted s
    → is_over s ≡ false
    → is_over (record_call call s) ≡ false
unfolding record_call
record_call-within (observed obs now) s h w = observe_at-within obs now false s h w
record_call-within (seeded scope listing now) s h w =
    let gone = gone_uids scope listing s in
    observe_all-within listing now (delete_all gone now s)
      (delete_all-keeps accounting 0 gone now s h) (delete_all-within gone now s h w)

pub record_calls-within :
    (calls : List Call) (s : Store)
    → IsAccounted s
    → is_over s ≡ false
    → is_over (record_calls calls s) ≡ false
unfolding record_calls
record_calls-within [] s h w = w
record_calls-within (call ∷ calls) s h w =
    record_calls-within calls (record_call call s) (record_call-keeps accounting 0 call s h)
      (record_call-within call s h w)
