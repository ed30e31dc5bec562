-- ===== src/Logstream/Buffer/Isolation.antt =====
-- A noisy container loses its own history before it costs another container theirs.
use pg_console.Prelude.{
  ℕ, zero, suc, ◌+◌, ◌≤◌, ◌≡◌, ◌≢◌, refl, ap, ◌∙◌, none, some, List, [], ◌∷◌, arith, ltb, inl, inr,
  Bool-cases, Option-cases,
}
use pg_console.Prelude.Eq.{pair_eq, string_eq, ==_iff, ==_refl}
use pg_console.Prelude.Dict.{lookup, lookup-insert}
use pg_console.Prelude.Dict.Sums.{sum_by, measured, measured-le-sum_by}
use pg_console.Logstream.Buffer.{
  StreamKey, Entry, Stream, Buffer, drop_oldest, drop_first, extended, or_new, push, entry_count,
  trim_stream, trim_total, append,
}
use pg_console.Logstream.Buffer.Sound.{IsSound, sizes, stream_bytes, drop-IsSound, push-IsSound}
use pg_console.Logstream.Buffer.Drops.{shortened, lookup-drop_ne, lookup-drop}
use pg_console.Logstream.Buffer.Events.{IsBounded}
use pg_console.Logstream.Buffer.Bounds.{
  AllWithin, trimmed-AllWithin, total-trim_stream, total-push, per_container-trim_stream,
  per_container-push,
}

drop_absent : (key : StreamKey) (b : Buffer) → lookup key b.streams ≡ none → drop_oldest key b ≡ b
unfolding drop_oldest
drop_absent key b e = rw (e, drop_oldest)

-- The bytes of one container's stream.
abbrev pub bytes_of : StreamKey → Buffer → ℕ
bytes_of key b = measured stream_bytes (lookup key b.streams)

trim_stream-others :
    (fuel : ℕ) (key k : StreamKey) (b : Buffer)
    → k ≢ key
    → lookup k (trim_stream fuel key b).streams ≡ lookup k b.streams
unfolding trim_stream
trim_stream-others zero key k b n = refl
trim_stream-others (suc fuel) key k b n = elim (Option-cases (lookup key b.streams)) [
  | inl e ↦ ground arith
  | inr (s, e) ↦
      ground
        (arith, trim_stream-others fuel key k (drop_oldest key b) n, lookup-drop_ne key b s k e n)
]

module _ (key : StreamKey) (b : Buffer) (h : IsSound b) (s : Stream)
    (at : lookup key b.streams ≡ some s) where
  bytes-drop_first :
      (entries : List Entry)
      → s.entries ≡ entries
      → (drop_first key entries s b).bytes + s.bytes
        ≡ b.bytes + measured stream_bytes (shortened entries s)
  unfolding drop_first sizes
  bytes-drop_first [] same = omega arith
  bytes-drop_first (e ∷ []) same =
      ground (arith, h.summed, measured-le-sum_by stream_bytes key b.streams, h.exact key s at)
  bytes-drop_first (e ∷ x ∷ rest) same =
      ground (arith, h.summed, measured-le-sum_by stream_bytes key b.streams, h.exact key s at)

  bytes-drop :
      (drop_oldest key b).bytes + s.bytes ≡ b.bytes + measured stream_bytes (shortened s.entries s)
  unfolding drop_oldest
  bytes-drop = rw (at, drop_oldest) (bytes-drop_first s.entries refl)

-- The bytes of the other containers stay as they are.
drop-rest :
    (key : StreamKey) (b : Buffer)
    → IsSound b
    → (drop_oldest key b).bytes + bytes_of key b ≡ b.bytes + bytes_of key (drop_oldest key b)
drop-rest key b h = elim (Option-cases (lookup key b.streams)) [
  | inl e ↦ rw (drop_absent key b e) (omega arith)
  | inr (s, e) ↦ ground (arith, bytes-drop key b h s e, lookup-drop key b s key e, ==_refl key)
]

trim_stream-rest :
    (fuel : ℕ) (key : StreamKey) (b : Buffer)
    → IsSound b
    → (trim_stream fuel key b).bytes + bytes_of key b
      ≡ b.bytes + bytes_of key (trim_stream fuel key b)
unfolding trim_stream
trim_stream-rest zero key b h = omega arith
trim_stream-rest (suc fuel) key b h =
    let rest = trim_stream-rest fuel key (drop_oldest key b) (drop-IsSound key b h) in
    elim (Option-cases (lookup key b.streams)) [
      | inl e ↦ ground arith
      | inr (s, e) ↦ elim (Bool-cases (ltb b.per_container s.bytes)) [
        | inl over ↦
            rw (e, over, trim_stream)
              (omega (arith, rest, drop-rest key b h, ap (measured stream_bytes) e))
        | inr fits ↦ ground arith
      ]
    ]

trim_total_idle : (fuel : ℕ) (b : Buffer) → b.bytes ≤ b.total → trim_total fuel b ≡ b
unfolding trim_total
trim_total_idle zero b le = refl
trim_total_idle (suc fuel) b le = ground arith

push-rest :
    (key : StreamKey) (e : Entry) (b : Buffer)
    → IsSound b
    → (push key e b).bytes + bytes_of key b ≡ b.bytes + bytes_of key (push key e b)
unfolding push
push-rest key e b h =
    let new = extended e (or_new (lookup key b.streams)) in
    unfold extended in ground (arith, lookup-insert key key new b.streams, ==_refl key)

bytes_of-le : (key : StreamKey) (b : Buffer) → AllWithin b → bytes_of key b ≤ b.per_container
bytes_of-le key b w = elim (Option-cases (lookup key b.streams)) [
  | inl e ↦ rw e (omega arith)
  | inr (s, e) ↦ rw e (w key s e)
]

lookup-push_ne :
    (key k : StreamKey) (e : Entry) (b : Buffer)
    → k ≢ key
    → lookup k (push key e b).streams ≡ lookup k b.streams
unfolding push
lookup-push_ne key k e b n = ground (
  arith,
  lookup-insert key k (extended e (or_new (lookup key b.streams))) b.streams,
  ==_iff key k,
)

-- Where the other containers' bytes and the bound for one container fit the total bound together,
-- a line or gap of one container leaves every other container's stream exactly as it was.
pub append-others :
    (key k : StreamKey) (e : Entry) (b : Buffer)
    → IsBounded b
    → k ≢ key
    → b.bytes + b.per_container ≤ b.total + bytes_of key b
    → lookup k (append key e b).streams ≡ lookup k b.streams
unfolding append
append-others key k e b h n room =
    let pushed = push key e b in
    let fuel = sum_by entry_count pushed.streams in
    let trimmed = trim_stream fuel key pushed in
    let fits : trimmed.bytes ≤ trimmed.total = omega (
      arith,
      trim_stream-rest fuel key pushed (push-IsSound key e b h.sound),
      push-rest key e b h.sound,
      bytes_of-le key trimmed (trimmed-AllWithin key e b h.sound h.each),
      per_container-trim_stream fuel key pushed,
      per_container-push key e b,
      total-trim_stream fuel key pushed,
      total-push key e b,
    ) in
    rw (trim_total_idle (sum_by entry_count trimmed.streams) trimmed fits)
      (trim_stream-others fuel key k pushed n ∙ lookup-push_ne key k e b n)
