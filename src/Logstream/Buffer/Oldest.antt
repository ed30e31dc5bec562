-- ===== src/Logstream/Buffer/Oldest.antt =====
-- The search for the stream that holds the oldest entry.
use pg_console.Prelude.{
  ℕ, ◌≤◌, ◌≡◌, ◌≢◌, refl, Option, none, some, [], ◌∷◌, arith, ltb, inl, inr, ◌⊎◌, Bool-cases,
}
use pg_console.Prelude.Eq.{◌==◌, pair_eq, string_eq, ==_iff, ==_refl}
use pg_console.Prelude.Dict.{Dict, lookup}
use pg_console.Prelude.Dict.Sums.{Distinct}
use pg_console.Logstream.Buffer.{StreamKey, Stream, Buffer, better, oldest_from, oldest_stream}
use pg_console.Logstream.Buffer.Sound.{IsSound}

abbrev Has : Dict StreamKey Stream → StreamKey → Type 0
Has m k = (s : Stream) × (lookup k m ≡ some s)

-- No stream is empty: what `IsSound` says, as a recursion over the list.
abbrev pub Filled : Dict StreamKey Stream → Type 0
Filled [] = Unit
Filled ((k, s) ∷ m) = (s.entries ≢ []) × Filled m

-- The time of the first entry; 0 for an empty stream, which the search passes over.
abbrev pub first_at : Stream → ℕ
first_at s = elim s.entries [ [] ↦ 0 | e ∷ rest ↦ e.at ]

oldest_from-ne-none :
    (m : Dict StreamKey Stream) (x : StreamKey × ℕ) → oldest_from (some x) m ≢ none
unfolding oldest_from better
oldest_from-ne-none [] x e = cc
oldest_from-ne-none ((k, s) ∷ m) (key, at) e =
    ground (arith, oldest_from-ne-none m (key, at), oldest_from-ne-none m (k, first_at s))

better-cases :
    (k : StreamKey) (s : Stream) (found : Option (StreamKey × ℕ))
    → (better k s found ≡ found) ⊎ (better k s found ≡ some (k, first_at s))
unfolding better
better-cases k s found = grind arith

better-least :
    (k : StreamKey) (s : Stream) (found : Option (StreamKey × ℕ))
    → s.entries ≢ []
    → (best : StreamKey) × (at : ℕ) × (better k s found ≡ some (best, at))
      × (at ≤ first_at s)
      × ((j : StreamKey) (a : ℕ) → found ≡ some (j, a) → at ≤ a)
unfolding better
better-least k s none f = (k, first_at s, ground arith, omega arith, λ j a p. absurd (ground arith))
better-least k s (some (i, b)) f = elim (Bool-cases (ltb (first_at s) b)) [
  | inl sooner ↦ (k, first_at s, ground arith, omega arith, λ j a p. ground arith)
  | inr later ↦ (i, b, ground arith, ground arith, λ j a p. ground arith)
]

cons-Has :
    (k : StreamKey) (s : Stream) (m : Dict StreamKey Stream) (key : StreamKey)
    → Has m key
    → Has ((k, s) ∷ m) key
unfolding lookup
cons-Has k s m key (t, p) = elim (Bool-cases (k == key)) [
  | inl mine ↦ (s, ground arith)
  | inr others ↦ (t, ground arith)
]

oldest_from-Has :
    (m : Dict StreamKey Stream) (found : Option (StreamKey × ℕ)) (key : StreamKey) (at : ℕ)
    → oldest_from found m ≡ some (key, at)
    → (found ≡ some (key, at)) ⊎ Has m key
unfolding oldest_from lookup
oldest_from-Has [] found key at e = inl e
oldest_from-Has ((k, s) ∷ m) found key at e =
    elim (oldest_from-Has m (better k s found) key at (unfold better in e)) [
      | inr later ↦ inr (cons-Has k s m key later)
      | inl q ↦ elim (better-cases k s found) [
        | inl same ↦ inl (ground arith)
        | inr here ↦ inr (s, ground (arith, ==_iff k key))
      ]
    ]

pub oldest_stream-Has :
    (m : Dict StreamKey Stream) (key : StreamKey) (at : ℕ)
    → oldest_stream m ≡ some (key, at)
    → (s : Stream) × (lookup key m ≡ some s)
unfolding oldest_stream
oldest_stream-Has m key at e = elim (oldest_from-Has m none key at e) [
  | inl absent ↦ absurd (ground arith)
  | inr has ↦ has
]

-- The time found is at most that of the best so far, and of the first entry of every stream.
oldest_from-least :
    (m : Dict StreamKey Stream) (found : Option (StreamKey × ℕ)) (key : StreamKey) (at : ℕ)
    → Filled m
    → oldest_from found m ≡ some (key, at)
    → ((k : StreamKey) (s : Stream) → lookup k m ≡ some s → at ≤ first_at s)
      × ((k : StreamKey) (a : ℕ) → found ≡ some (k, a) → at ≤ a)
unfolding oldest_from lookup
oldest_from-least [] found key at f e = (λ k s p. absurd (ground arith), λ k a p. ground arith)
oldest_from-least ((j, t) ∷ m) found key at f e =
    let (best, b, q, le, old) = better-least j t found f.0 in
    let (later, step) = oldest_from-least m (better j t found) key at f.1 (unfold better in e) in
    let lower = step best b q in
    (λ k s p. ground (arith, later k s), λ k a p. omega (arith, old k a p))

-- No stream is left out where the search finds nothing.
pub oldest_stream-none : (m : Dict StreamKey Stream) → Filled m → oldest_stream m ≡ none → m ≡ []
unfolding oldest_stream oldest_from
oldest_stream-none [] f e = refl
oldest_stream-none ((k, s) ∷ m) f e =
    let (best, at, q, le, old) = better-least k s none f.0 in
    absurd (ground (arith, oldest_from-ne-none m (best, at)))

-- Where no stream is empty, the stream that is chosen to lose its oldest entry has a first entry
-- that is not later than the first entry of any other stream.
pub oldest_stream-least :
    (m : Dict StreamKey Stream) (key : StreamKey) (at : ℕ)
    → Filled m
    → oldest_stream m ≡ some (key, at)
    → (k : StreamKey) (s : Stream) → lookup k m ≡ some s
    → at ≤ first_at s
unfolding oldest_stream
oldest_stream-least m key at f e = (oldest_from-least m none key at f e).0

Filled-lookup :
    (m : Dict StreamKey Stream)
    → Distinct m
    → ((k : StreamKey) (s : Stream) → lookup k m ≡ some s → s.entries ≢ [])
    → Filled m
unfolding lookup
Filled-lookup [] d h = tt
Filled-lookup ((j, t) ∷ m) d h = (
  h j t (ground (arith, ==_refl j)),
  Filled-lookup m d.1 (λ k s p. h k s (ground (arith, ==_iff j k, d.0))),
)

pub IsSound-Filled : (b : Buffer) → IsSound b → Filled b.streams
IsSound-Filled b h = Filled-lookup b.streams h.distinct h.filled
