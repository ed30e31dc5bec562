-- ===== src/Logstream/Buffer.antt =====
-- internal/logstream/buffer.go: the bounded buffer of recent log lines per container.
--
-- A time and a duration are nanoseconds; a bound of zero or less disables retention, so bounds are
-- naturals. A nil buffer behaves like a disabled one. The pointer that the map holds to a stream is
-- the map's entry. Each loop takes as fuel the number of entries that it can drop.

pub mod Sound
pub mod Drops
pub mod Oldest
pub mod Bounds
pub mod Forget
pub mod Events
pub mod Isolation
use Prim.Native.String.{len}
use pg_console.Prelude.{
  ℕ, zero, suc, ◌+◌, ◌-◌, Bool, true, false, ◌&&◌, Option, none, some, List, [], ◌∷◌, ◌++◌, String,
  ltb, length, if◌then◌else◌,
}
use pg_console.Prelude.Eq.{pair_eq, string_eq, ◌==◌}
use pg_console.Prelude.Dict.{Dict, lookup, insert, remove}
use pg_console.Prelude.Dict.Sums.{sum_by}
use pg_console.Prelude.Sort.{sort_strings}

abbrev pub StreamKey : Type 0
StreamKey = String × String

pub record Line : Type 0 where
  pub pod : String
  pub container : String
  pub at : ℕ
  pub text : String

pub record Entry : Type 0 where
  pub at : ℕ
  pub text : String
  pub gap : Bool

unfoldable pub size : Entry → ℕ
size e = len e.text + 48

pub record Stream : Type 0 where
  pub entries : List Entry
  pub bytes : ℕ

pub record Buffer : Type 0 where
  pub per_container : ℕ
  pub total : ℕ
  pub max_age : ℕ
  pub streams : Dict StreamKey Stream
  pub bytes : ℕ

unfoldable pub new_buffer : ℕ → ℕ → ℕ → Buffer
new_buffer per_container total max_age = record {
  per_container = per_container;
  total = total;
  max_age = max_age;
  streams = [];
  bytes = 0;
}

unfoldable pub enabled : Buffer → Bool
enabled b = ltb 0 b.per_container && ltb 0 b.total

-- The streams once one has lost its first entry: an empty stream leaves the map.
abbrev shorten : StreamKey → Stream → Dict StreamKey Stream → Dict StreamKey Stream
shorten key s m = elim s.entries [ [] ↦ remove key m | e ∷ rest ↦ insert key s m ]

-- Only called where the stream has an entry; the code would panic on an empty one.
drop_first : StreamKey → List Entry → Stream → Buffer → Buffer
unfolding size
drop_first key [] s b = b
drop_first key (e ∷ rest) s b = record b {
  streams = shorten key (record { entries = rest; bytes = s.bytes - size e }) b.streams;
  bytes = b.bytes - size e;
}

unfoldable pub drop_oldest : StreamKey → Buffer → Buffer
unfolding drop_first
drop_oldest key b = elim (lookup key b.streams) [ none ↦ b | some s ↦ drop_first key s.entries s b ]

-- One round of the search: a stream, its key, and the best so far with the time of its first entry.
unfoldable pub better : StreamKey → Stream → Option (StreamKey × ℕ) → Option (StreamKey × ℕ)
better key s found = elim s.entries [
  | [] ↦ found
  | e ∷ rest ↦ (elim found [
    | none ↦ some (key, e.at)
    | some (k, at) ↦ if ltb e.at at then some (key, e.at) else some (k, at)
  ])
]

unfoldable pub oldest_from : Option (StreamKey × ℕ) → Dict StreamKey Stream → Option (StreamKey × ℕ)
unfolding better
oldest_from found [] = found
oldest_from found ((key, s) ∷ m) = oldest_from (better key s found) m

unfoldable pub oldest_stream : Dict StreamKey Stream → Option (StreamKey × ℕ)
unfolding oldest_from
oldest_stream m = oldest_from none m

-- The first loop of `append`.
unfoldable pub trim_stream : ℕ → StreamKey → Buffer → Buffer
trim_stream zero key b = b
trim_stream (suc fuel) key b =
    let rest = trim_stream fuel key (drop_oldest key b) in
    elim (lookup key b.streams) [
      | none ↦ b
      | some s ↦ if ltb b.per_container s.bytes then rest else b
    ]

-- The second loop of `append`.
unfoldable pub trim_total : ℕ → Buffer → Buffer
trim_total zero b = b
trim_total (suc fuel) b = elim (oldest_stream b.streams) [
  | none ↦ b
  | some (key, at) ↦
      let rest = trim_total fuel (drop_oldest key b) in if ltb b.total b.bytes then rest else b
]

abbrev pub or_new : Option Stream → Stream
or_new none = record { entries = []; bytes = 0 }
or_new (some s) = s

unfoldable pub extended : Entry → Stream → Stream
extended e s = record { entries = s.entries ++ e ∷ []; bytes = s.bytes + size e }

-- `append` before its loops.
unfoldable pub push : StreamKey → Entry → Buffer → Buffer
unfolding extended
push key e b = record b {
  streams = insert key (extended e (or_new (lookup key b.streams))) b.streams;
  bytes = b.bytes + size e;
}

abbrev pub entry_count : Stream → ℕ
entry_count s = length s.entries

unfoldable pub append : StreamKey → Entry → Buffer → Buffer
append key e b =
    let pushed = push key e b in
    let trimmed = trim_stream (sum_by entry_count pushed.streams) key pushed in
    trim_total (sum_by entry_count trimmed.streams) trimmed

unfoldable pub observe : Line → Buffer → Buffer
observe line b =
    if enabled b
    then append (line.pod, line.container) (record { at = line.at; text = line.text; gap = false })
        b
    else b

unfoldable pub gap : String → String → ℕ → String → Buffer → Buffer
gap pod container at reason b =
    if enabled b
    then append (pod, container) (record { at = at; text = reason; gap = true }) b
    else b

pub record Retained : Type 0 where
  pub at : ℕ
  pub text : String
  pub gap : Bool

-- `cutoff` is `now - max_age`; the test is written with the sum, which does not go below zero.
unfoldable pub recent : ℕ → ℕ → List Entry → List Retained
recent max_age now [] = []
recent max_age now (e ∷ entries) =
    let rest = recent max_age now entries in
    if ltb 0 max_age && ltb (e.at + max_age) now
    then rest
    else record { at = e.at; text = e.text; gap = e.gap } ∷ rest

-- The second component says whether anything is held for the container.
unfoldable pub tail : String → String → ℕ → Buffer → List Retained × Bool
unfolding recent enabled
tail pod container now b =
    if enabled b
    then (elim (lookup (pod, container) b.streams) [
      | none ↦ ([], false)
      | some s ↦ (recent b.max_age now s.entries, true)
    ])
    else ([], false)

names_of : String → Dict StreamKey Stream → List String
names_of pod [] = []
names_of pod (((p, container), s) ∷ m) =
    let rest = names_of pod m in if p == pod then container ∷ rest else rest

unfoldable pub containers : String → Buffer → List String
unfolding names_of
containers pod b = if enabled b then sort_strings (names_of pod b.streams) else []

-- The loop of `Forget`; deleting while ranging over a Go map is allowed.
unfoldable pub forget_streams : String → Dict StreamKey Stream → Dict StreamKey Stream
forget_streams pod [] = []
forget_streams pod (((p, container), s) ∷ m) =
    let rest = forget_streams pod m in if p == pod then rest else ((p, container), s) ∷ rest

unfoldable pub forgotten_bytes : String → Dict StreamKey Stream → ℕ
forgotten_bytes pod [] = 0
forgotten_bytes pod (((p, container), s) ∷ m) =
    let rest = forgotten_bytes pod m in if p == pod then s.bytes + rest else rest

unfoldable pub forget : String → Buffer → Buffer
unfolding forget_streams forgotten_bytes
forget pod b =
    if enabled b
    then record b {
      streams = forget_streams pod b.streams;
      bytes = b.bytes - forgotten_bytes pod b.streams;
    }
    else b

-- What reaches the buffer: lines and gaps from the tails, and the end of a pod.
pub data Event : Type 0 where
  line_read : Line → Event
  gap_seen : String → String → ℕ → String → Event
  pod_gone : String → Event

unfoldable pub handle : Event → Buffer → Buffer
unfolding observe gap forget
handle (line_read line) b = observe line b
handle (gap_seen pod container at reason) b = gap pod container at reason b
handle (pod_gone pod) b = forget pod b

unfoldable pub handle_all : List Event → Buffer → Buffer
handle_all [] b = b
handle_all (event ∷ events) b = handle_all events (handle event b)
