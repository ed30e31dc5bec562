-- ===== src/Ops/Csrf.antt =====
-- internal/ops/csrf.go: the confirmation tokens.
--
-- Decimal numbers, and the hexadecimal HMAC of a message under a key, are arguments. A time is an int64,
-- the natural below 2 ^ 64 of the same bits.
pub mod Binding
use pg_console.Prelude.{
  ℕ, zero, suc, ◌+◌, ◌-◌, ◌%◌, ◌^◌, ◌≡◌, ◌<◌, Bool, true, false, not, ◌&&◌, ◌||◌, Option, none,
  some, List, [], ◌∷◌, ◌++◌, ltb, leb, eqb, if◌then◌else◌,
}
use pg_console.Prelude.Eq.{◌==◌, nat_eq, list_eq}

-- What the code takes from `strconv`, `crypto/hmac` and `encoding/hex`.
pub record Tokens : Type 0 where
  pub format_int : ℕ → List ℕ
  pub parse_int : List ℕ → Option ℕ
  pub hex_hmac : List ℕ → List ℕ → List ℕ

abbrev pub is_digit : ℕ → Bool
is_digit c = leb b'0' c && leb c b'9'

abbrev pub all_digits : List ℕ → Bool
all_digits [] = true
all_digits (c ∷ cs) = is_digit c && all_digits cs

-- What is relied on: numbers of 64 bits are read, and what is written of one that is not negative are
-- digits that read as that number.
pub record IsTokens (t : Tokens) : Type 0 where
  pub in_range : (text : List ℕ) (n : ℕ) → t.parse_int text ≡ some n → n < 2 ^ 64
  pub digits_only : (n : ℕ) → n < 2 ^ 63 → all_digits (t.format_int n) ≡ true
  pub reads_back : (n : ℕ) → n < 2 ^ 63 → t.parse_int (t.format_int n) ≡ some n

-- `CSRFMaxAge`, in seconds.
abbrev pub csrf_max_age : ℕ
csrf_max_age = 600

pub record Csrf : Type 0 where
  pub key : List ℕ

-- The text before the first dot and the text after it.
unfoldable pub split_dot : List ℕ → Option (List ℕ × List ℕ)
split_dot [] = none
split_dot (c ∷ cs) =
    if eqb c b'.'
    then some ([], cs)
    else elim (split_dot cs) [ none ↦ none | some (stamp, code) ↦ some (c ∷ stamp, code) ]

-- `now - issued`, which wraps round.
unfoldable pub age : ℕ → ℕ → ℕ
age now issued = (now + 2 ^ 64 - issued) % 2 ^ 64

unfoldable pub is_fresh : ℕ → ℕ → Bool
unfolding age
is_fresh now issued = not (leb (2 ^ 63) (age now issued) || ltb csrf_max_age (age now issued))

module _ (t : Tokens) where
  -- What the HMAC is over.
  unfoldable pub message : List ℕ → ℕ → List ℕ
  message context issued = context ++ 0 ∷ t.format_int issued

  unfoldable pub mac : Csrf → List ℕ → ℕ → List ℕ
  unfolding message
  mac c context issued = t.hex_hmac c.key (message context issued)

  unfoldable pub issue : Csrf → List ℕ → ℕ → List ℕ
  unfolding mac
  issue c context now = t.format_int now ++ b'.' ∷ mac c context now

  unfoldable pub verify : Csrf → List ℕ → List ℕ → ℕ → Bool
  unfolding split_dot mac is_fresh
  verify c context token now = elim (split_dot token) [
    | none ↦ false
    | some (stamp, code) ↦ (elim (t.parse_int stamp) [
      | none ↦ false
      | some issued ↦ is_fresh now issued && code == mac c context issued
    ])
  ]
