-- ===== src/Logstream/Buffer/Bounds.antt =====
-- After every line both byte bounds hold, and the loops end within their fuel.
use pg_console.Prelude.{
  ℕ, zero, suc, ◌≤◌, ◌≡◌, ◌≢◌, refl, some, [], arith, ltb, inl, inr, Bool-cases, Option-cases, ◌∙◌,
}
use pg_console.Prelude.Eq.{◌==◌, pair_eq, string_eq, ==_iff}
use pg_console.Prelude.Dict.{lookup, lookup-insert}
use pg_console.Prelude.Dict.Sums.{sum_by}
use pg_console.Logstream.Buffer.{
  StreamKey, Entry, Stream, Buffer, drop_oldest, extended, or_new, push, entry_count, oldest_stream,
  trim_stream, trim_total, append,
}
use pg_console.Logstream.Buffer.Sound.{IsSound, push-IsSound, drop-IsSound, trim_stream-IsSound}
use pg_console.Logstream.Buffer.Oldest.{oldest_stream-Has, oldest_stream-none, IsSound-Filled}
use pg_console.Logstream.Buffer.Drops.{
  per_container-drop, total-drop, lookup-drop_ne, bytes_drop-le, count-drop, no_stream,
}

-- Every stream is within the bound for one container.
abbrev pub AllWithin : Buffer → Type 0
AllWithin b = (k : StreamKey) (s : Stream) → lookup k b.streams ≡ some s → s.bytes ≤ b.per_container

abbrev OthersWithin : StreamKey → Buffer → Type 0
OthersWithin key b =
    (k : StreamKey) (s : Stream) → lookup k b.streams ≡ some s → k ≢ key → s.bytes ≤ b.per_container

drop-OthersWithin :
    (key : StreamKey) (b : Buffer) (s : Stream)
    → lookup key b.streams ≡ some s
    → OthersWithin key b
    → OthersWithin key (drop_oldest key b)
drop-OthersWithin key b s at o k t p n =
    let kept = lookup-drop_ne key b s k at n in
    rw per_container-drop (o k t (ground (arith, kept)) n)

drop-AllWithin :
    (key : StreamKey) (b : Buffer) (s : Stream)
    → lookup key b.streams ≡ some s
    → AllWithin b
    → AllWithin (drop_oldest key b)
drop-AllWithin key b s at w k t p =
    let (u, q, le) = bytes_drop-le key b s k t at p in
    rw per_container-drop (omega (arith, w k u q))

trim_stream-AllWithin :
    (fuel : ℕ) (key : StreamKey) (b : Buffer)
    → IsSound b
    → OthersWithin key b
    → sum_by entry_count b.streams ≤ fuel
    → AllWithin (trim_stream fuel key b)
unfolding trim_stream
trim_stream-AllWithin zero key b h o enough k s p = absurd (no_stream b h (omega arith) k s p)
trim_stream-AllWithin (suc fuel) key b h o enough k s p =
    elim (Option-cases (lookup key b.streams)) [
      | inl e ↦
          let here : lookup k b.streams ≡ some s = ground arith in
          ground (arith, o k s here (ground arith))
      | inr (current, e) ↦
          let rest =
            trim_stream-AllWithin fuel key (drop_oldest key b) (drop-IsSound key b h)
              (drop-OthersWithin key b current e o) (omega (arith, count-drop key b current h e)) k
              s in
          elim (Bool-cases (ltb b.per_container current.bytes)) [
            | inl over ↦ ground arith
            | inr fits ↦
                let here : lookup k b.streams ≡ some s = ground arith in
                elim (Bool-cases (k == key)) [
                  | inl mine ↦ ground (arith, ==_iff k key)
                  | inr others ↦ ground (arith, o k s here (λ same. ground (arith, ==_iff k key)))
                ]
          ]
    ]

per_container-trim_total :
    (fuel : ℕ) (b : Buffer) → (trim_total fuel b).per_container ≡ b.per_container
unfolding trim_total
per_container-trim_total zero b = refl
per_container-trim_total (suc fuel) b = elim (Option-cases (oldest_stream b.streams)) [
  | inl e ↦ ground arith
  | inr ((key, at), e) ↦
      ground (arith, per_container-trim_total fuel (drop_oldest key b), per_container-drop key b)
]

trim_total-AllWithin : (fuel : ℕ) (b : Buffer) → AllWithin b → AllWithin (trim_total fuel b)
unfolding trim_total
trim_total-AllWithin zero b w k s p = w k s p
trim_total-AllWithin (suc fuel) b w k s p = elim (Option-cases (oldest_stream b.streams)) [
  | inl e ↦ ground (arith, w k s)
  | inr ((key, at), e) ↦
      let (t, q) = oldest_stream-Has b.streams key at e in
      let rest = trim_total-AllWithin fuel (drop_oldest key b) (drop-AllWithin key b t q w) k s in
      ground
        (arith, w k s, per_container-trim_total fuel (drop_oldest key b), per_container-drop key b)
]

empty_buffer : (b : Buffer) → IsSound b → b.streams ≡ [] → b.bytes ≡ 0
unfolding sum_by
empty_buffer b h e = ground (arith, h.summed)

no_bytes : (b : Buffer) → IsSound b → sum_by entry_count b.streams ≡ 0 → b.bytes ≡ 0
no_bytes b h e = elim (Option-cases (oldest_stream b.streams)) [
  | inl q ↦ empty_buffer b h (oldest_stream-none b.streams (IsSound-Filled b h) q)
  | inr ((key, at), q) ↦
      let (s, p) = oldest_stream-Has b.streams key at q in absurd (no_stream b h e key s p)
]

-- As many rounds as there are entries bring the buffer under its total bound.
trim_total-within :
    (fuel : ℕ) (b : Buffer)
    → IsSound b
    → sum_by entry_count b.streams ≤ fuel
    → (trim_total fuel b).bytes ≤ b.total
unfolding trim_total
trim_total-within zero b h enough = omega (arith, no_bytes b h (omega arith))
trim_total-within (suc fuel) b h enough = elim (Option-cases (oldest_stream b.streams)) [
  | inl e ↦ ground (arith, empty_buffer b h (oldest_stream-none b.streams (IsSound-Filled b h) e))
  | inr ((key, at), e) ↦
      let (s, p) = oldest_stream-Has b.streams key at e in
      let rest =
        trim_total-within fuel (drop_oldest key b) (drop-IsSound key b h)
          (omega (arith, count-drop key b s h p)) in
      ground (arith, rest, total-drop key b)
]

push-OthersWithin :
    (key : StreamKey) (e : Entry) (b : Buffer) → AllWithin b → OthersWithin key (push key e b)
unfolding push
push-OthersWithin key e b w k s p n = w k s (
    ground (
      arith,
      lookup-insert key k (extended e (or_new (lookup key b.streams))) b.streams,
      ==_iff key k,
    ))

pub trimmed-AllWithin :
    (key : StreamKey) (e : Entry) (b : Buffer)
    → IsSound b
    → AllWithin b
    → AllWithin (trim_stream (sum_by entry_count (push key e b).streams) key (push key e b))
trimmed-AllWithin key e b h w =
    trim_stream-AllWithin (sum_by entry_count (push key e b).streams) key (push key e b)
      (push-IsSound key e b h) (push-OthersWithin key e b w) (omega arith)

pub total-trim_stream :
    (fuel : ℕ) (key : StreamKey) (b : Buffer) → (trim_stream fuel key b).total ≡ b.total
unfolding trim_stream
total-trim_stream zero key b = refl
total-trim_stream (suc fuel) key b =
    ground (arith, total-trim_stream fuel key (drop_oldest key b), total-drop key b)

pub total-push : (key : StreamKey) (e : Entry) (b : Buffer) → (push key e b).total ≡ b.total
unfolding push
total-push key e b = refl

pub append-AllWithin :
    (key : StreamKey) (e : Entry) (b : Buffer)
    → IsSound b
    → AllWithin b
    → AllWithin (append key e b)
unfolding append
append-AllWithin key e b h w = trim_total-AllWithin _ _ (trimmed-AllWithin key e b h w)

pub append-within :
    (key : StreamKey) (e : Entry) (b : Buffer) → IsSound b → (append key e b).bytes ≤ b.total
unfolding append
append-within key e b h =
    let pushed = push key e b in
    let n = sum_by entry_count pushed.streams in
    let trimmed = trim_stream n key pushed in
    let sound = trim_stream-IsSound n key pushed (push-IsSound key e b h) in
    omega (
      arith,
      trim_total-within (sum_by entry_count trimmed.streams) trimmed sound (omega arith),
      total-trim_stream n key pushed,
      total-push key e b,
    )

total-trim_total : (fuel : ℕ) (b : Buffer) → (trim_total fuel b).total ≡ b.total
unfolding trim_total
total-trim_total zero b = refl
total-trim_total (suc fuel) b = elim (Option-cases (oldest_stream b.streams)) [
  | inl e ↦ ground arith
  | inr ((key, at), e) ↦ ground (arith, total-trim_total fuel (drop_oldest key b), total-drop key b)
]

pub total-append : (key : StreamKey) (e : Entry) (b : Buffer) → (append key e b).total ≡ b.total
unfolding append
total-append key e b =
    let pushed = push key e b in
    let n = sum_by entry_count pushed.streams in
    total-trim_total _ (trim_stream n key pushed)
    ∙ total-trim_stream n key pushed
    ∙ total-push key e b

pub per_container-trim_stream :
    (fuel : ℕ) (key : StreamKey) (b : Buffer)
    → (trim_stream fuel key b).per_container ≡ b.per_container
unfolding trim_stream
per_container-trim_stream zero key b = refl
per_container-trim_stream (suc fuel) key b =
    ground (arith, per_container-trim_stream fuel key (drop_oldest key b), per_container-drop key b)

pub per_container-push :
    (key : StreamKey) (e : Entry) (b : Buffer) → (push key e b).per_container ≡ b.per_container
unfolding push
per_container-push key e b = refl
