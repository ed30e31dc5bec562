-- ===== src/Observe/Loop/Freshness.antt =====
-- Lost contact is never served as fresh.
use pg_console.Prelude.{
  ◌⊎◌, ◌≡◌, refl, ◌∙◌, Bool, true, false, List, [], ◌∷◌, ◌++◌, arith, inl, inr, Bool-cases,
  Option-cases,
}
use pg_console.Observe.Loop.{
  Feed, Round, Output, publish, mark_stale, wait_for, Loop, new_loop, published, retry, fold_item,
  consume, watch, turn, run,
}

ended_or_stale : (b c : Bool) → (b ≡ false → c ≡ true) → (b ≡ true) ⊎ (c ≡ true)
ended_or_stale true c h = inl refl
ended_or_stale false c h = inr (h refl)

module _ {S : Type 0} where
  -- Whether what is served is marked stale after some outputs, from a first flag.
  abbrev pub stale_after : Bool → List (Output S) → Bool
  stale_after stale [] = stale
  stale_after stale (publish s ∷ out) = stale_after false out
  stale_after stale (mark_stale ∷ out) = stale_after true out
  stale_after stale (wait_for d ∷ out) = stale_after stale out

  -- At every wait what is served is marked stale.
  abbrev pub StaleWaits : Bool → List (Output S) → Type 0
  StaleWaits stale [] = Unit
  StaleWaits stale (publish s ∷ out) = StaleWaits false out
  StaleWaits stale (mark_stale ∷ out) = StaleWaits true out
  StaleWaits stale (wait_for d ∷ out) = (stale ≡ true) × StaleWaits stale out

  stale_after-append :
      (stale : Bool) (a b : List (Output S))
      → stale_after stale (a ++ b) ≡ stale_after (stale_after stale a) b
  stale_after-append stale [] b = refl
  stale_after-append stale (publish s ∷ a) b = stale_after-append false a b
  stale_after-append stale (mark_stale ∷ a) b = stale_after-append true a b
  stale_after-append stale (wait_for d ∷ a) b = stale_after-append stale a b

  StaleWaits-append :
      (stale : Bool) (a b : List (Output S))
      → StaleWaits stale a
      → StaleWaits (stale_after stale a) b
      → StaleWaits stale (a ++ b)
  StaleWaits-append stale [] b h k = k
  StaleWaits-append stale (publish s ∷ a) b h k = StaleWaits-append false a b h k
  StaleWaits-append stale (mark_stale ∷ a) b h k = StaleWaits-append true a b h k
  StaleWaits-append stale (wait_for d ∷ a) b h k = (h.0, StaleWaits-append stale a b h.1 k)

  abbrev Honest : Loop S → Type 0
  Honest l = StaleWaits false l.outputs

  published-Honest : (l : Loop S) → Honest l → Honest (published l)
  unfolding published
  published-Honest l h = StaleWaits-append false l.outputs (publish l.retained ∷ []) h tt

  retry-Honest : (l : Loop S) → Honest l → Honest (retry l)
  unfolding retry
  retry-Honest l h =
      StaleWaits-append false (l.outputs ++ mark_stale ∷ []) (wait_for l.backoff ∷ [])
        (StaleWaits-append false l.outputs (mark_stale ∷ []) h tt)
        (stale_after-append false l.outputs (mark_stale ∷ []), tt)

  retry-stale : (l : Loop S) → stale_after false (retry l).outputs ≡ true
  unfolding retry
  retry-stale l =
      stale_after-append false (l.outputs ++ mark_stale ∷ []) (wait_for l.backoff ∷ [])
      ∙ stale_after-append false l.outputs (mark_stale ∷ [])

module _ {S X E : Type 0} (feed : Feed S X E) where
  consume-Honest : (items : List E) (l : Loop S) → Honest l → Honest (consume feed items l)
  unfolding consume fold_item
  consume-Honest [] l h = h
  consume-Honest (item ∷ items) l h =
      let folded = record l { retained = (feed.apply item l.retained).0 } in
      elim (Bool-cases (feed.apply item l.retained).1) [
        | inl publishes ↦
            rw (publishes, consume)
              (consume-Honest items (published folded) (published-Honest folded h))
        | inr keeps ↦ rw (keeps, consume) (consume-Honest items folded h)
      ]

  watch-Honest :
      (r : Round X E) (l : Loop S)
      → Honest l
      → Honest (watch feed r l).0
        × ((watch feed r l).1 ≡ false → stale_after false (watch feed r l).0.outputs ≡ true)
  unfolding watch
  watch-Honest r l h =
      let consumed = consume feed r.items l in
      let kept = consume-Honest r.items l h in
      elim (Bool-cases r.starts) [
        | inr fails ↦ rw fails (retry-Honest l h, λ go. retry-stale l)
        | inl starts ↦ elim (Bool-cases r.cancelled) [
          | inl over ↦ rw (starts, over) (kept, λ go. absurd (ground arith))
          | inr ended ↦ rw (starts, ended) (retry-Honest consumed kept, λ go. retry-stale consumed)
        ]
      ]

  turn-Honest :
      (r : Round X E) (l : Loop S)
      → Honest l
      → Honest (turn feed r l).0
        × ((turn feed r l).1 ≡ false → stale_after false (turn feed r l).0.outputs ≡ true)
  unfolding turn
  turn-Honest r l h = elim (Option-cases (feed.seed r.answer l.retained)) [
    | inl e ↦ rw (e, turn) (retry-Honest l h, λ go. retry-stale l)
    | inr (s, e) ↦
        let seeded : Loop S = record l { retained = s } in
        rw (e, turn) (watch-Honest r (published seeded) (published-Honest seeded h))
  ]

  run-keeps : (rounds : List (Round X E)) (l : Loop S) → Honest l → Honest (run feed rounds l)
  unfolding run
  run-keeps [] l h = h
  run-keeps (r ∷ rounds) l h =
      let one = (turn-Honest r l h).0 in ground (arith, one, run-keeps rounds (turn feed r l).0 one)

  -- Whenever `Run` waits, whether after a failed seed, a failed watch start or the end of a watch,
  -- the snapshot that it published last has been marked stale; and after a turn that does not end
  -- `Run` it is marked stale until the next publication.
  pub run-StaleWaits :
      (rounds : List (Round X E)) (r : Round X E) (s : S)
      → StaleWaits false (run feed rounds (new_loop s)).outputs
        × (((turn feed r (run feed rounds (new_loop s))).1 ≡ true)
            ⊎ (stale_after false (turn feed r (run feed rounds (new_loop s))).0.outputs ≡ true))
  unfolding new_loop
  run-StaleWaits rounds r s =
      let h = run-keeps rounds (new_loop s) tt in
      (h, ended_or_stale _ _ (turn-Honest r (run feed rounds (new_loop s)) h).1)
