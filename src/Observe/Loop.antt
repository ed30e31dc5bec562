-- ===== src/Observe/Loop.antt =====
-- internal/observe/loop.go: the collector engine, over any feed.
--
-- What the source answers comes in rounds, the list of which ends where the context is cancelled in
-- a wait. The feed is an argument. `Output` lists what the loop makes happen, in order: what the
-- store publishes, that its snapshot is stale, and the waits, in nanoseconds. The log is left out.
pub mod Backoff
pub mod Freshness
use pg_console.Prelude.{
  ℕ, ◌+◌, ◌*◌, Bool, true, false, Option, none, some, List, [], ◌∷◌, ◌++◌, ltb, if◌then◌else◌,
}

abbrev pub backoff_initial : ℕ
backoff_initial = 1_000_000_000

abbrev pub backoff_max : ℕ
backoff_max = 30_000_000_000

-- The part of the `feed` interface that decides what the loop does: `seed` is given what the source
-- answers, and `none` is its error; `apply` says whether the fold is published. `S` is the retained
-- state.
pub record Feed (S X E : Type 0) : Type 0 where
  pub seed : X → S → Option S
  pub apply : E → S → S × Bool

-- One turn of `Run`: the answer to the seed, whether the watch starts, the items that it delivers,
-- and whether the context is cancelled while they are consumed, rather than the watch ending.
pub record Round (X E : Type 0) : Type 0 where
  pub answer : X
  pub starts : Bool
  pub items : List E
  pub cancelled : Bool

pub data Output (S : Type 0) : Type 0 where
  publish : S → Output S
  mark_stale : Output S
  wait_for : ℕ → Output S

pub record Loop (S : Type 0) : Type 0 where
  pub retained : S
  pub backoff : ℕ
  pub outputs : List (Output S)

unfoldable pub new_loop : {S : Type 0} → S → Loop S
new_loop s = record { retained = s; backoff = backoff_initial; outputs = [] }

module _ {S : Type 0} where
  unfoldable pub published : Loop S → Loop S
  published l = record l {
    backoff = backoff_initial;
    outputs = l.outputs ++ publish l.retained ∷ [];
  }

  unfoldable pub lose_contact : Loop S → Loop S
  lose_contact l = record l { outputs = l.outputs ++ mark_stale ∷ [] }

  unfoldable pub wait : Loop S → Loop S
  wait l =
      let doubled = l.backoff * 2 in
      record l {
        backoff = if ltb backoff_max doubled then backoff_max else doubled;
        outputs = l.outputs ++ wait_for l.backoff ∷ [];
      }

  unfoldable pub retry : Loop S → Loop S
  unfolding lose_contact wait
  retry l = wait (lose_contact l)

module _ {S X E : Type 0} (feed : Feed S X E) where
  unfoldable pub fold_item : E → Loop S → Loop S
  unfolding published
  fold_item item l =
      let (retained, publishes) = feed.apply item l.retained in
      let folded = record l { retained = retained } in
      if publishes then published folded else folded

  -- Items that were delivered are folded before a cancellation counts.
  unfoldable pub consume : List E → Loop S → Loop S
  consume [] l = l
  consume (item ∷ items) l = consume items (fold_item item l)

  -- The watch of a round whose seed succeeded; the second component is whether `Run` returns.
  unfoldable pub watch : Round X E → Loop S → Loop S × Bool
  watch r l =
      let consumed = consume r.items l in
      if r.starts
      then (if r.cancelled then (consumed, true) else (retry consumed, false))
      else (retry l, false)

  unfoldable pub turn : Round X E → Loop S → Loop S × Bool
  turn r l = elim (feed.seed r.answer l.retained) [
    | none ↦ (retry l, false)
    | some s ↦ watch r (published (record l { retained = s }))
  ]

  unfoldable pub run : List (Round X E) → Loop S → Loop S
  run [] l = l
  run (r ∷ rounds) l =
      let rest = run rounds (turn r l).0 in if (turn r l).1 then (turn r l).0 else rest
