-- ===== src/Observe/Loop/Backoff.antt =====
-- The delays between two attempts.
use pg_console.Prelude.{
  ℕ, zero, suc, ◌*◌, ◌^◌, ◌≤◌, ◌≡◌, none, List, [], ◌∷◌, ◌++◌, arith, min, inl, inr, Bool-cases,
  Option-cases,
}
use pg_console.Observe.Loop.{
  backoff_initial, backoff_max, Feed, Round, Output, publish, mark_stale, wait_for, Loop, new_loop,
  published, retry, fold_item, consume, watch, turn, run,
}

-- The delay of the attempt after `n` failures.
unfoldable pub delay : ℕ → ℕ
delay n = min (backoff_initial * 2 ^ n) backoff_max

-- The outputs of a number of failures, when a number of them came before.
unfoldable pub failures : {S : Type 0} → ℕ → ℕ → List (Output S)
failures from zero = []
failures from (suc n) = mark_stale ∷ wait_for (delay from) ∷ failures (suc from) n

module _ {S : Type 0} where
  -- Every wait is between the first delay and the bound.
  abbrev pub WaitsBounded : List (Output S) → Type 0
  WaitsBounded [] = Unit
  WaitsBounded (wait_for d ∷ out) = (backoff_initial ≤ d) × (d ≤ backoff_max) × WaitsBounded out
  WaitsBounded (_ ∷ out) = WaitsBounded out

  pub record IsPaced (l : Loop S) : Type 0 where
    pub lower : backoff_initial ≤ l.backoff
    pub upper : l.backoff ≤ backoff_max
    pub waits : WaitsBounded l.outputs

  WaitsBounded-append :
      (a b : List (Output S)) → WaitsBounded a → WaitsBounded b → WaitsBounded (a ++ b)
  WaitsBounded-append [] b h k = k
  WaitsBounded-append (wait_for d ∷ a) b h k = (h.0, h.1, WaitsBounded-append a b h.2 k)
  WaitsBounded-append (publish s ∷ a) b h k = WaitsBounded-append a b h k
  WaitsBounded-append (mark_stale ∷ a) b h k = WaitsBounded-append a b h k

  published-IsPaced : (l : Loop S) → IsPaced l → IsPaced (published l)
  unfolding published
  published-IsPaced l h = record {
    lower = omega arith;
    upper = omega arith;
    waits = WaitsBounded-append l.outputs (publish l.retained ∷ []) h.waits tt;
  }

  retry-IsPaced : (l : Loop S) → IsPaced l → IsPaced (retry l)
  unfolding retry
  retry-IsPaced l h = record {
    lower = ground (arith, h.lower);
    upper = ground arith;
    waits =
        WaitsBounded-append (l.outputs ++ mark_stale ∷ []) (wait_for l.backoff ∷ [])
          (WaitsBounded-append l.outputs (mark_stale ∷ []) h.waits tt) (h.lower, h.upper, tt);
  }

module _ {S X E : Type 0} (feed : Feed S X E) where
  consume-IsPaced : (items : List E) (l : Loop S) → IsPaced l → IsPaced (consume feed items l)
  unfolding consume fold_item
  consume-IsPaced [] l h = h
  consume-IsPaced (item ∷ items) l h =
      let folded = record l { retained = (feed.apply item l.retained).0 } in
      let paced : IsPaced folded = record { lower = h.lower; upper = h.upper; waits = h.waits } in
      elim (Bool-cases (feed.apply item l.retained).1) [
        | inl publishes ↦
            rw publishes (consume-IsPaced items (published folded) (published-IsPaced folded paced))
        | inr keeps ↦ rw keeps (consume-IsPaced items folded paced)
      ]

  watch-IsPaced : (r : Round X E) (l : Loop S) → IsPaced l → IsPaced (watch feed r l).0
  unfolding watch
  watch-IsPaced r l h = ground (
    arith,
    retry-IsPaced l h,
    consume-IsPaced r.items l h,
    retry-IsPaced (consume feed r.items l) (consume-IsPaced r.items l h),
  )

  turn-IsPaced : (r : Round X E) (l : Loop S) → IsPaced l → IsPaced (turn feed r l).0
  unfolding turn
  turn-IsPaced r l h = elim (Option-cases (feed.seed r.answer l.retained)) [
    | inl e ↦ rw (e, turn) (retry-IsPaced l h)
    | inr (s, e) ↦
        let seeded : Loop S = record l { retained = s } in
        let paced : IsPaced seeded = record { lower = h.lower; upper = h.upper; waits = h.waits } in
        rw (e, turn) (watch-IsPaced r (published seeded) (published-IsPaced seeded paced))
  ]

  run-keeps : (rounds : List (Round X E)) (l : Loop S) → IsPaced l → IsPaced (run feed rounds l)
  unfolding run
  run-keeps [] l h = h
  run-keeps (r ∷ rounds) l h =
      let one = turn-IsPaced r l h in ground (arith, one, run-keeps rounds (turn feed r l).0 one)

  -- Whatever the source does, every wait of `Run` is at least a second and at most thirty.
  pub run-IsPaced : (rounds : List (Round X E)) (s : S) → IsPaced (run feed rounds (new_loop s))
  unfolding new_loop
  run-IsPaced rounds s =
      run-keeps rounds (record { retained = s; backoff = backoff_initial; outputs = [] })
        (record { lower = omega arith; upper = omega arith; waits = tt })

  -- The seed of every round fails.
  abbrev pub AllFail : S → List (Round X E) → Type 0
  AllFail s [] = Unit
  AllFail s (r ∷ rounds) = (feed.seed r.answer s ≡ none) × AllFail s rounds
