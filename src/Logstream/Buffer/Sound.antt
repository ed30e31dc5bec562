-- ===== src/Logstream/Buffer/Sound.antt =====
-- The byte counts are exact, no stream is empty, and no container stands twice.
use pg_console.Prelude.{
  ℕ, zero, suc, ◌+◌, ◌-◌, ◌≡◌, ◌≢◌, refl, Option, none, some, List, [], ◌∷◌, ◌++◌, arith, inl, inr,
  Option-cases,
}
use pg_console.Prelude.Eq.{pair_eq, string_eq}
use pg_console.Prelude.Dict.{lookup, lookup-insert, lookup-remove}
use pg_console.Prelude.Dict.Sums.{
  sum_by, measured, Distinct, Distinct-insert, Distinct-remove, sum_by-insert, sum_by-remove,
  measured-le-sum_by,
}
use pg_console.Logstream.Buffer.{
  StreamKey, Entry, size, Stream, Buffer, drop_first, drop_oldest, extended, or_new, push,
  entry_count, oldest_stream, trim_stream, trim_total, append,
}

unfoldable pub sizes : List Entry → ℕ
sizes [] = 0
sizes (e ∷ entries) = size e + sizes entries

abbrev pub stream_bytes : Stream → ℕ
stream_bytes s = s.bytes

pub record IsSound (b : Buffer) : Type 0 where
  pub distinct : Distinct b.streams
  pub filled : (k : StreamKey) (s : Stream) → lookup k b.streams ≡ some s → s.entries ≢ []
  pub exact : (k : StreamKey) (s : Stream) → lookup k b.streams ≡ some s → s.bytes ≡ sizes s.entries
  pub summed : b.bytes ≡ sum_by stream_bytes b.streams

sizes-append :
    (entries : List Entry) (e : Entry) → sizes (entries ++ e ∷ []) ≡ sizes entries + size e
unfolding sizes
sizes-append [] e = omega arith
sizes-append (x ∷ entries) e = omega (arith, sizes-append entries e)

append-ne-nil : (entries : List Entry) (e : Entry) → entries ++ e ∷ [] ≢ []
append-ne-nil [] e h = cc
append-ne-nil (x ∷ entries) e h = cc

or_new_exact :
    (b : Buffer) (key : StreamKey)
    → IsSound b
    → (or_new (lookup key b.streams)).bytes ≡ sizes (or_new (lookup key b.streams)).entries
unfolding sizes
or_new_exact b key h = elim (Option-cases (lookup key b.streams)) [
  | inl e ↦ ground arith
  | inr (s, e) ↦ ground (arith, h.exact key s e)
]

measured-or_new : (o : Option Stream) → measured stream_bytes o ≡ (or_new o).bytes
measured-or_new none = refl
measured-or_new (some s) = refl

pub push-IsSound : (key : StreamKey) (e : Entry) (b : Buffer) → IsSound b → IsSound (push key e b)
unfolding push
push-IsSound key e b h =
    let old = or_new (lookup key b.streams) in
    let new = extended e old in
    record {
      distinct = Distinct-insert key new b.streams h.distinct;
      filled = λ k s p.
          ground
            (arith, lookup-insert key k new b.streams, append-ne-nil old.entries e, h.filled k s);
      exact = λ k s p. ground (
        arith,
        lookup-insert key k new b.streams,
        sizes-append old.entries e,
        or_new_exact b key h,
        h.exact k s,
      );
      summed = omega (
        arith,
        h.summed,
        sum_by-insert stream_bytes key new b.streams,
        measured-or_new (lookup key b.streams),
      );
    }

module _ (key : StreamKey) (s : Stream) (b : Buffer) (at : lookup key b.streams ≡ some s)
    (h : IsSound b) where
  drop_first-IsSound :
      (e : Entry) (rest : List Entry)
      → s.entries ≡ e ∷ rest
      → IsSound (drop_first key (e ∷ rest) s b)
  unfolding drop_first sizes
  drop_first-IsSound e [] same = record {
    distinct = Distinct-remove key b.streams h.distinct;
    filled = λ k t p. ground (arith, lookup-remove key k b.streams, h.filled k t);
    exact = λ k t p. ground (arith, lookup-remove key k b.streams, h.exact k t);
    summed =
        ground
          (arith, h.summed, sum_by-remove stream_bytes key b.streams h.distinct, h.exact key s at);
  }
  drop_first-IsSound e (x ∷ rest) same =
      let shorter : Stream = record { entries = x ∷ rest; bytes = s.bytes - size e } in
      record {
        distinct = Distinct-insert key shorter b.streams h.distinct;
        filled = λ k t p. ground (arith, lookup-insert key k shorter b.streams, h.filled k t);
        exact = λ k t p.
            ground (arith, lookup-insert key k shorter b.streams, h.exact k t, h.exact key s at);
        summed = ground (
          arith,
          h.summed,
          sum_by-insert stream_bytes key shorter b.streams,
          measured-le-sum_by stream_bytes key b.streams,
          h.exact key s at,
        );
      }

  drop_oldest-IsSound : IsSound (drop_oldest key b)
  unfolding drop_oldest
  drop_oldest-IsSound = rw (at, drop_oldest) (split s.entries refl)
    where
      split : (entries : List Entry) → s.entries ≡ entries → IsSound (drop_first key entries s b)
      split [] e = unfold drop_first in h
      split (x ∷ rest) e = drop_first-IsSound x rest e

pub drop-IsSound : (key : StreamKey) (b : Buffer) → IsSound b → IsSound (drop_oldest key b)
unfolding drop_oldest
drop-IsSound key b h = elim (Option-cases (lookup key b.streams)) [
  | inl e ↦ rw (e, drop_oldest) h
  | inr (s, e) ↦ drop_oldest-IsSound key s b e h
]

pub trim_stream-IsSound :
    (fuel : ℕ) (key : StreamKey) (b : Buffer) → IsSound b → IsSound (trim_stream fuel key b)
unfolding trim_stream
trim_stream-IsSound zero key b h = h
trim_stream-IsSound (suc fuel) key b h =
    ground (arith, trim_stream-IsSound fuel key (drop_oldest key b) (drop-IsSound key b h))

pub trim_total-IsSound : (fuel : ℕ) (b : Buffer) → IsSound b → IsSound (trim_total fuel b)
unfolding trim_total
trim_total-IsSound zero b h = h
trim_total-IsSound (suc fuel) b h = elim (Option-cases (oldest_stream b.streams)) [
  | inl e ↦ rw (e, trim_total) h
  | inr ((key, at), e) ↦
      let rest = trim_total-IsSound fuel (drop_oldest key b) (drop-IsSound key b h) in
      ground (arith, rest)
]

pub append-IsSound :
    (key : StreamKey) (e : Entry) (b : Buffer) → IsSound b → IsSound (append key e b)
unfolding append
append-IsSound key e b h =
    let pushed = push key e b in
    let n = sum_by entry_count pushed.streams in
    trim_total-IsSound _ (trim_stream n key pushed)
      (trim_stream-IsSound n key pushed (push-IsSound key e b h))
