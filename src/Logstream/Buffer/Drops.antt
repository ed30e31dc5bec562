-- ===== src/Logstream/Buffer/Drops.antt =====
-- What dropping the oldest entry of a stream does to the streams and to the number of entries.
use pg_console.Prelude.{
  ◌+◌, ◌-◌, ◌≤◌, ◌<◌, ◌≡◌, ◌≢◌, refl, Option, none, some, List, [], ◌∷◌, arith, length,
  if◌then◌else◌, inl, inr, Bool-cases,
}
use pg_console.Prelude.Eq.{◌==◌, pair_eq, string_eq, ==_iff}
use pg_console.Prelude.Dict.{lookup, lookup-insert, lookup-remove}
use pg_console.Prelude.Dict.Sums.{sum_by, sum_by-insert, sum_by-remove, measured-le-sum_by}
use pg_console.Logstream.Buffer.{
  StreamKey, Entry, size, Stream, Buffer, drop_first, drop_oldest, entry_count,
}
use pg_console.Logstream.Buffer.Sound.{IsSound}

abbrev pub Streams : Buffer → StreamKey → Stream → Type 0
Streams b k s = lookup k b.streams ≡ some s

pub positive : (entries : List Entry) → entries ≢ [] → 0 < length entries
positive [] h = absurd (h refl)
positive (e ∷ entries) h = omega arith

-- What is left of a stream that loses its first entry.
abbrev pub shortened : List Entry → Stream → Option Stream
shortened [] s = some s
shortened (e ∷ []) s = none
shortened (e ∷ x ∷ rest) s = some (record { entries = x ∷ rest; bytes = s.bytes - size e })

module _ (key : StreamKey) (b : Buffer) where
  pub per_container-drop : (drop_oldest key b).per_container ≡ b.per_container
  unfolding drop_oldest drop_first
  per_container-drop = ground arith

  pub total-drop : (drop_oldest key b).total ≡ b.total
  unfolding drop_oldest drop_first
  total-drop = ground arith

  lookup-drop_first :
      (entries : List Entry) (s : Stream) (k : StreamKey)
      → lookup key b.streams ≡ some s
      → lookup k (drop_first key entries s b).streams
        ≡ (if key == k then shortened entries s else lookup k b.streams)
  unfolding drop_first
  lookup-drop_first [] s k at = ground (arith, ==_iff key k)
  lookup-drop_first (e ∷ []) s k at = lookup-remove key k b.streams
  lookup-drop_first (e ∷ x ∷ rest) s k at =
      lookup-insert key k (record { entries = x ∷ rest; bytes = s.bytes - size e }) b.streams

  pub lookup-drop :
      (s : Stream) (k : StreamKey)
      → lookup key b.streams ≡ some s
      → lookup k (drop_oldest key b).streams
        ≡ (if key == k then shortened s.entries s else lookup k b.streams)
  unfolding drop_oldest
  lookup-drop s k at = rw (at, drop_oldest) (lookup-drop_first s.entries s k at)

  pub lookup-drop_ne :
      (s : Stream) (k : StreamKey)
      → lookup key b.streams ≡ some s
      → k ≢ key
      → lookup k (drop_oldest key b).streams ≡ lookup k b.streams
  lookup-drop_ne s k at h = ground (arith, lookup-drop s k at, ==_iff key k)

  pub bytes_drop-le :
      (s : Stream) (k : StreamKey) (t : Stream)
      → lookup key b.streams ≡ some s
      → lookup k (drop_oldest key b).streams ≡ some t
      → (u : Stream) × (lookup k b.streams ≡ some u) × (t.bytes ≤ u.bytes)
  bytes_drop-le s k t at e = elim (Bool-cases (key == k)) [
    | inl mine ↦
        (s, ground (arith, ==_iff key k), shrunk s.entries (ground (arith, lookup-drop s k at)))
    | inr others ↦ (t, ground (arith, lookup-drop s k at), omega arith)
  ]
    where
      shrunk : (entries : List Entry) → shortened entries s ≡ some t → t.bytes ≤ s.bytes
      shrunk [] p = ground arith
      shrunk (e ∷ []) p = absurd (ground arith)
      shrunk (e ∷ x ∷ rest) p = ground arith

  count-drop_first :
      (entries : List Entry) (s : Stream)
      → IsSound b
      → s.entries ≡ entries
      → entries ≢ []
      → lookup key b.streams ≡ some s
      → sum_by entry_count (drop_first key entries s b).streams + 1 ≡ sum_by entry_count b.streams
  unfolding drop_first
  count-drop_first [] s h same filled at = absurd (filled refl)
  count-drop_first (e ∷ []) s h same filled at =
      ground (arith, sum_by-remove entry_count key b.streams h.distinct)
  count-drop_first (e ∷ x ∷ rest) s h same filled at = ground (
    arith,
    sum_by-insert entry_count key (record { entries = x ∷ rest; bytes = s.bytes - size e })
        b.streams,
  )

  pub count-drop :
      (s : Stream)
      → IsSound b
      → lookup key b.streams ≡ some s
      → sum_by entry_count (drop_oldest key b).streams + 1 ≡ sum_by entry_count b.streams
  unfolding drop_oldest
  count-drop s h at =
      rw (at, drop_oldest) (count-drop_first s.entries s h refl (h.filled key s at) at)

-- With no entry to drop there is no stream.
pub no_stream :
    (b : Buffer)
    → IsSound b
    → sum_by entry_count b.streams ≡ 0
    → (k : StreamKey) (s : Stream) → lookup k b.streams ≢ some s
no_stream b h e k s at =
    ground (arith, measured-le-sum_by entry_count k b.streams, positive s.entries (h.filled k s at))
