-- ===== src/Logstream/Runner.antt =====
-- internal/logstream/runner.go: the followers of the container logs.
--
-- A follower is modelled by what it does: its calls of the sink and the waits that it starts, in
-- order. What the environment does in a round of the loop is an argument: whether the stream opens,
-- the lines the scanner yields, how it ends, what the clock says, and where the context ends.
pub mod Paced
pub mod Covered
pub mod Roster
use pg_console.Prelude.{
  ℕ, ◌*◌, Bool, true, false, not, List, [], ◌∷◌, ◌++◌, String, ltb, ◌||◌, if◌then◌else◌,
}
use pg_console.Prelude.Eq.{◌==◌, string_eq, pair_eq}
use pg_console.Logstream.Texts.{Bytes}
use pg_console.Logstream.Matcher.{Line, Member}

-- Nanoseconds.
abbrev pub second : ℕ
second = 1_000_000_000

abbrev pub reconnect_min : ℕ
reconnect_min = 2 * second

abbrev pub reconnect_max : ℕ
reconnect_max = 120 * second

-- A call of the sink, or the start of a wait before the next attempt.
pub data Effect : Type 0 where
  observed : Line → Effect
  gap : Member → ℕ → String → Effect
  attached : Member → ℕ → Effect
  detached : Member → ℕ → String → Effect
  dropped : Member → Effect
  waits : Member → ℕ → Effect

-- A line of the scanner with the time it is read.
pub record Scanned : Type 0 where
  pub text : Bytes
  pub at : ℕ

pub data Ending : Type 0 where
  ended : Ending
  interrupted : Ending

-- What `Follow` gives: an error, or a stream with the time it opened, its lines and its end.
pub data Stream : Type 0 where
  unopened : Stream
  opened : ℕ → List Scanned → Ending → Stream

pub record Round : Type 0 where
  pub stream : Stream
  -- the context has ended when the stream has
  pub stopped_reading : Bool
  pub gap_at : ℕ
  pub detached_at : ℕ
  -- the context ends during the wait
  pub stopped_waiting : Bool

abbrev pub not_attached_yet : String
not_attached_yet = "the follower has not attached to this container's stream yet"

abbrev pub ending_reason : Ending → String
ending_reason ended = "stream ended; lines emitted before it was reopened were not observed"
ending_reason interrupted = "stream interrupted; a line may have exceeded the read bound"

unfoldable pub reason_of : Stream → String
reason_of unopened = "stream could not be opened; nothing from this container was observed"
reason_of (opened at lines ending) = ending_reason ending

unfoldable pub read_lines : Member → List Scanned → List Effect
read_lines (pod, container) [] = []
read_lines (pod, container) (s ∷ lines) =
    observed (record { pod = pod; container = container; text = s.text; at = s.at })
    ∷ read_lines (pod, container) lines

unfoldable pub read_once : Member → Stream → List Effect
unfolding read_lines
read_once x unopened = []
read_once x (opened at lines ending) = attached x at ∷ read_lines x lines

unfoldable pub next_backoff : ℕ → ℕ
next_backoff backoff = if ltb reconnect_max (backoff * 2) then reconnect_max else backoff * 2

-- The loop of `follow`, with its deferred call; it has no more rounds where the context has ended
-- at its head.
unfoldable pub follow_from : Member → ℕ → List Round → List Effect
unfolding read_once reason_of next_backoff
follow_from x backoff [] = dropped x ∷ []
follow_from x backoff (r ∷ rounds) =
    let rest = follow_from x (next_backoff backoff) rounds in
    read_once x r.stream
    ++ (if r.stopped_reading
        then dropped x ∷ []
        else gap x r.gap_at (reason_of r.stream)
          ∷ detached x r.detached_at (reason_of r.stream)
          ∷ waits x backoff
          ∷ (if r.stopped_waiting then dropped x ∷ [] else rest))

unfoldable pub follow : Member → ℕ → List Round → List Effect
unfolding follow_from
follow x at rounds = detached x at not_attached_yet ∷ follow_from x reconnect_min rounds

-- What a reconciliation does with the followers.
pub data Act : Type 0 where
  cancels : Member → Act
  starts : Member → Act

unfoldable pub has : Member → List Member → Bool
has x [] = false
has x (y ∷ ys) = y == x || has x ys

unfoldable pub wanted_from : List Member → List Member → List Member
wanted_from wanted [] = wanted
wanted_from wanted (x ∷ members) = wanted_from (if has x wanted then wanted else x ∷ wanted) members

-- The loop that cancels: the followers that stay, and what is done.
unfoldable pub cancel_gone : List Member → List Member → List Member × List Act
cancel_gone wanted [] = ([], [])
cancel_gone wanted (x ∷ running) =
    let (kept, acts) = cancel_gone wanted running in
    if has x wanted then (x ∷ kept, acts) else (kept, cancels x ∷ acts)

-- The loop that starts.
unfoldable pub start_new : List Member → List Member → List Member × List Act
start_new running [] = (running, [])
start_new running (x ∷ wanted) =
    let (all, acts) = start_new (x ∷ running) wanted in
    let same = start_new running wanted in if has x running then same else (all, starts x ∷ acts)

unfoldable pub reconcile : List Member → List Member → List Member × List Act
unfolding wanted_from cancel_gone start_new
reconcile members running =
    let wanted = wanted_from [] members in
    let (kept, cancelled) = cancel_gone wanted running in
    let (all, started) = start_new kept wanted in (all, cancelled ++ started)

unfoldable pub stop_all : List Member → List Member × List Act
stop_all [] = ([], [])
stop_all (x ∷ running) = let (kept, acts) = stop_all running in (kept, cancels x ∷ acts)
