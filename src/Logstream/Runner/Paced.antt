-- ===== src/Logstream/Runner/Paced.antt =====
-- internal/logstream/runner.go: the waits between a follower's attempts.
use pg_console.Prelude.{
  ℕ, zero, suc, ◌*◌, ◌^◌, ◌≡◌, refl, ◌∙◌, ap, min, arith, Bool, true, false, List, [], ◌∷◌, ◌++◌,
  if◌then◌else◌,
}
use native.Mathlib.Nat.{pow-suc}
use pg_console.Logstream.Matcher.{Member}
use pg_console.Logstream.Runner.{
  Effect, gap, detached, dropped, waits, Scanned, Stream, unopened, opened, Round, read_lines,
  read_once, reason_of, follow_from, follow, next_backoff, reconnect_max, second,
}

-- The waits among the effects.
unfoldable pub delays : List Effect → List ℕ
delays [] = []
delays (waits x d ∷ es) = d ∷ delays es
delays (_ ∷ es) = delays es

-- The number of waits of the rounds: one a round, to the round in which the context ends.
unfoldable pub waits_of : List Round → ℕ
waits_of [] = 0
waits_of (r ∷ rounds) =
    let rest = waits_of rounds in
    if r.stopped_reading then 0 else if r.stopped_waiting then 1 else suc rest

-- The wait before attempt `k + 1`.
abbrev pub pace : ℕ → ℕ
pace k = min (2 ^ k * 2 * second) reconnect_max

unfoldable pub paces : ℕ → ℕ → List ℕ
paces k zero = []
paces k (suc n) = pace k ∷ paces (suc k) n

next_backoff-doubled :
    (p : ℕ)
    → next_backoff (min (p * 2 * second) reconnect_max) ≡ min (p * 2 * 2 * second) reconnect_max
unfolding next_backoff
next_backoff-doubled p = ground arith

next_backoff-pace : (k : ℕ) → next_backoff (pace k) ≡ pace (suc k)
next_backoff-pace k = rw (pow-suc 2 k) (next_backoff-doubled (2 ^ k))

delays-read_lines :
    (x : Member) (lines : List Scanned) (es : List Effect)
    → delays (read_lines x lines ++ es) ≡ delays es
unfolding delays read_lines
delays-read_lines (pod, container) [] es = refl
delays-read_lines (pod, container) (s ∷ lines) es = delays-read_lines (pod, container) lines es

delays-read_once :
    (x : Member) (stream : Stream) (es : List Effect)
    → delays (read_once x stream ++ es) ≡ delays es
unfolding delays read_once
delays-read_once x unopened es = refl
delays-read_once x (opened at lines ending) es = delays-read_lines x lines es

delays-round :
    (x : Member) (k n : ℕ) (r : Round) (rest : List Effect)
    → delays rest ≡ paces (suc k) n
    → (reading waiting : Bool)
    → delays (
        if reading
        then dropped x ∷ []
        else gap x r.gap_at (reason_of r.stream)
          ∷ detached x r.detached_at (reason_of r.stream)
          ∷ waits x (pace k)
          ∷ (if waiting then dropped x ∷ [] else rest))
      ≡ paces k (if reading then 0 else if waiting then 1 else suc n)
unfolding delays paces
delays-round x k n r rest more true waiting = refl
delays-round x k n r rest more false true = refl
delays-round x k n r rest more false false = ap (λ ds. pace k ∷ ds) more

delays-follow_from :
    (x : Member) (k : ℕ) (rounds : List Round)
    → delays (follow_from x (pace k) rounds) ≡ paces k (waits_of rounds)
unfolding delays follow_from paces waits_of
delays-follow_from x k [] = refl
delays-follow_from x k (r ∷ rounds) =
    delays-read_once x r.stream _
    ∙ delays-round x k (waits_of rounds) r (follow_from x (next_backoff (pace k)) rounds)
        (rw (next_backoff-pace k) (delays-follow_from x (suc k) rounds)) r.stopped_reading
        r.stopped_waiting

-- A follower's waits are 2 s, 4 s, 8 s and so on, each at most 2 min, one for each round to the
-- round in which the context ends, whatever the streams do.
pub follow-delays :
    (x : Member) (at : ℕ) (rounds : List Round)
    → delays (follow x at rounds) ≡ paces 0 (waits_of rounds)
unfolding delays follow
follow-delays x at rounds = delays-follow_from x 0 rounds
