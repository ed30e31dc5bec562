-- ===== src/Evidence/Poller/Paced.antt =====
-- The waits between two polls.
use pg_console.Prelude.{
  ℕ, ◌*◌, ◌≤◌, ◌<◌, ◌≡◌, refl, Option, none, some, List, [], ◌∷◌, ◌++◌, arith, inl, inr, Bool-cases,
}
use pg_console.Evidence.Poller.{
  FailureKind, Fetched, fetched, failed, Report, Store, Poller, Round, second, poll_jitter_max,
  random_jitter, new_poller, keep_collection, assemble, wait, next_backoff, poll_failed,
  poll_succeeded, collected, turn, run,
}

-- Every wait is a failure's, of one second to thirty, or a success's, of fifteen to eighteen.
abbrev pub WaitsBounded : List ℕ → Type 0
WaitsBounded [] = Unit
WaitsBounded (d ∷ waits) = (second ≤ d) × (d ≤ 30 * second) × WaitsBounded waits

WaitsBounded-append :
    (a : List ℕ) (d : ℕ)
    → WaitsBounded a
    → second ≤ d
    → d ≤ 30 * second
    → WaitsBounded (a ++ d ∷ [])
WaitsBounded-append [] d h lo hi = (lo, hi, tt)
WaitsBounded-append (x ∷ a) d h lo hi = (h.0, h.1, WaitsBounded-append a d h.2 lo hi)

pub random_jitter-lt :
    (entropy : Option ℕ) → random_jitter entropy poll_jitter_max < poll_jitter_max
random_jitter-lt none = omega arith
random_jitter-lt (some bits) = omega arith

module _ {D B : Type 0} where
  pub record IsPaced (p : Poller D B) : Type 0 where
    pub lower : second ≤ p.backoff
    pub upper : p.backoff ≤ 30 * second
    pub waits : WaitsBounded p.waits

  poll_failed-IsPaced :
      (r : Round D B) (kind : FailureKind) (p : Poller D B)
      → IsPaced p
      → IsPaced (poll_failed r kind p).0
  unfolding poll_failed wait next_backoff
  poll_failed-IsPaced r kind p h = elim (Bool-cases r.cancelled) [
    | inl stop ↦ rw stop h
    | inr go ↦ rw go (record {
      lower = ground (arith, h.lower);
      upper = ground (arith, h.upper);
      waits = WaitsBounded-append p.waits p.backoff h.waits h.lower h.upper;
    })
  ]

  -- What the assembly keeps of the pacing.
  SamePace : Poller D B → Fetched (Poller D B) → Type 0
  SamePace p (failed kind) = Unit
  SamePace p (fetched q) = q.waits ≡ p.waits

  assemble-SamePace :
      (r : Round D B) (report : Report D) (p : Poller D B)
      → SamePace p (assemble r.collection report p)
  unfolding assemble SamePace keep_collection
  assemble-SamePace r report p = ground arith

  collected-IsPaced :
      (r : Round D B) (report : Report D) (answer : Fetched (Poller D B)) (p : Poller D B)
      → IsPaced p
      → SamePace p answer
      → IsPaced (collected r report answer p).0
  unfolding collected poll_succeeded wait SamePace
  collected-IsPaced r report (failed kind) p h e = poll_failed-IsPaced r kind p h
  collected-IsPaced r report (fetched q) p h e =
      let jitter = random_jitter-lt r.entropy in
      record {
        lower = omega arith;
        upper = omega arith;
        waits = rw e (WaitsBounded-append p.waits _ h.waits (omega arith) (omega (arith, jitter)));
      }

  turn-IsPaced : (r : Round D B) (p : Poller D B) → IsPaced p → IsPaced (turn r p).0
  unfolding turn
  turn-IsPaced r p h = by_answer r.snapshot refl
    where
      by_answer : (answer : Fetched (Report D)) → r.snapshot ≡ answer → IsPaced (turn r p).0
      by_answer (failed kind) e = rw (e, turn) (poll_failed-IsPaced r kind p h)
      by_answer (fetched report) e =
          rw (e, turn)
            (collected-IsPaced r report (assemble r.collection report p) p h
              (assemble-SamePace r report p))

  run-keeps : (rounds : List (Round D B)) (p : Poller D B) → IsPaced p → IsPaced (run rounds p)
  unfolding run
  run-keeps [] p h = h
  run-keeps (r ∷ rounds) p h =
      let one = turn-IsPaced r p h in
      elim (Bool-cases (turn r p).1) [
        | inl stop ↦ rw stop one
        | inr go ↦ rw go (run-keeps rounds (turn r p).0 one)
      ]

  -- Whatever the sidecar answers and whatever the entropy, every wait of the poller is between one
  -- second and thirty.
  pub polls-IsPaced :
      (rounds : List (Round D B)) (store : Store D B) → IsPaced (run rounds (new_poller store))
  unfolding new_poller
  polls-IsPaced rounds store =
      run-keeps rounds (new_poller store)
        (record { lower = omega arith; upper = omega arith; waits = tt })
