-- ===== src/History/Journal/Cursor.antt =====
-- The order of the bucket keys, in which a cursor visits the revisions.
use pg_console.Prelude.{
  ℕ, ◌+◌, ◌*◌, ◌^◌, ◌<◌, ◌≡◌, refl, true, false, none, List, [], ◌∷◌, arith, ltb, eqb_iff, inl, inr,
  Bool-cases,
}
use pg_console.Prelude.Eq.{◌==◌, ==_iff, nat_eq, string_eq, list_eq}
use pg_console.Prelude.Dict.{lookup}
use pg_console.History.Types.{Bytes}
use pg_console.History.Journal.{seq_key, bytes_lt, IsAbove}

-- The number that digits of base 256 stand for, after the digits of `a`.
number : ℕ → Bytes → ℕ
number a [] = a
number a (x ∷ xs) = number (a * 256 + x) xs

AreDigits : Bytes → Bytes → Type 0
AreDigits [] [] = Unit
AreDigits (x ∷ xs) (y ∷ ys) = (x < 256) × ((y < 256) × AreDigits xs ys)
AreDigits _ _ = ⊥

number-lt : (a b : ℕ) (xs ys : Bytes) → AreDigits xs ys → a < b → number a xs < number b ys
unfolding number AreDigits
number-lt a b [] [] digits less = less
number-lt a b [] (y ∷ ys) digits less = absurd digits
number-lt a b (x ∷ xs) [] digits less = absurd digits
number-lt a b (x ∷ xs) (y ∷ ys) (dx, (dy, digits)) less =
    number-lt (a * 256 + x) (b * 256 + y) xs ys digits (omega arith)

bytes_lt-number :
    (a : ℕ) (xs ys : Bytes) → AreDigits xs ys → bytes_lt xs ys ≡ true → number a xs < number a ys
unfolding number AreDigits bytes_lt
bytes_lt-number a [] [] digits below = absurd (ground (arith, below))
bytes_lt-number a [] (y ∷ ys) digits below = absurd digits
bytes_lt-number a (x ∷ xs) [] digits below = absurd digits
bytes_lt-number a (x ∷ xs) (y ∷ ys) (dx, (dy, digits)) below = elim (Bool-cases (ltb x y)) [
  | inl less ↦ number-lt (a * 256 + x) (a * 256 + y) xs ys digits (ground (arith, less))
  | inr not_less ↦
      rw (show_same not_less)
        (bytes_lt-number (a * 256 + y) xs ys digits (ground (arith, below, not_less)))
]
  where
    show_same : ltb x y ≡ false → x ≡ y
    show_same not_less = ground (arith, below, not_less, eqb_iff x y)

number-seq_key : (s : ℕ) → s < 2 ^ 64 → number 0 (seq_key s) ≡ s
unfolding number seq_key
number-seq_key s hs = omega arith

-- The order of the keys is the order of the numbers.
pub seq_key_mono :
    (s t : ℕ) → s < 2 ^ 64 → t < 2 ^ 64 → bytes_lt (seq_key s) (seq_key t) ≡ true → s < t
seq_key_mono s t hs ht below =
    let less =
      bytes_lt-number 0 (seq_key s) (seq_key t) (unfold seq_key AreDigits in omega arith) below in
    ground (arith, less, number-seq_key s hs, number-seq_key t ht)

pub bytes_lt_irrefl : (k : Bytes) → bytes_lt k k ≡ false
unfolding bytes_lt
bytes_lt_irrefl [] = refl
bytes_lt_irrefl (b ∷ bs) = ground (arith, bytes_lt_irrefl bs)

pub bytes_lt_trans :
    (i j k : Bytes) → bytes_lt i j ≡ true → bytes_lt j k ≡ true → bytes_lt i k ≡ true
unfolding bytes_lt
bytes_lt_trans [] [] k p q = absurd (ground (arith, p))
bytes_lt_trans [] (b ∷ bs) [] p q = absurd (ground (arith, q))
bytes_lt_trans [] (b ∷ bs) (c ∷ cs) p q = refl
bytes_lt_trans (a ∷ az) [] k p q = absurd (ground (arith, p))
bytes_lt_trans (a ∷ az) (b ∷ bs) [] p q = absurd (ground (arith, q))
bytes_lt_trans (a ∷ az) (b ∷ bs) (c ∷ cs) p q = ground (arith, bytes_lt_trans az bs cs)

pub bytes_lt_total : (j k : Bytes) → (j == k) ≡ false → bytes_lt j k ≡ false → bytes_lt k j ≡ true
unfolding bytes_lt
bytes_lt_total [] [] other below = absurd (ground (arith, other))
bytes_lt_total [] (c ∷ cs) other below = absurd (ground (arith, below))
bytes_lt_total (b ∷ bs) [] other below = refl
bytes_lt_total (b ∷ bs) (c ∷ cs) other below =
    ground (arith, bytes_lt_total bs cs, other, below, eqb_iff b c, eqb_iff c b)

pub bytes_lt_asym : (j k : Bytes) → bytes_lt j k ≡ true → bytes_lt k j ≡ false
bytes_lt_asym j k below = elim (Bool-cases (bytes_lt k j)) [
  | inl above ↦ absurd (ground (arith, bytes_lt_trans j k j below above, bytes_lt_irrefl j))
  | inr not_above ↦ not_above
]

pub not_below_trans :
    (a b c : Bytes) → bytes_lt b a ≡ false → bytes_lt c b ≡ false → bytes_lt c a ≡ false
not_below_trans a b c p q = elim (Bool-cases (bytes_lt c a)) [
  | inr not_below ↦ not_below
  | inl below ↦ (elim (Bool-cases (b == a)) [
    | inl same ↦ absurd (ground (arith, below, rw ((==_iff b a).0 same) at q))
    | inr other ↦
        absurd (ground (arith, q, bytes_lt_trans c a b below (bytes_lt_total b a other p)))
  ])
]

module _ {V : Type 0} where
  pub IsAbove-lower :
      (i j : Bytes) (es : List (Bytes × V)) → bytes_lt i j ≡ true → IsAbove j es → IsAbove i es
  unfolding IsAbove
  IsAbove-lower i j [] below above = tt
  IsAbove-lower i j ((k, v) ∷ es) below (next, above) = (bytes_lt_trans i j k below next, above)

  pub lookup-IsAbove : (k : Bytes) (es : List (Bytes × V)) → IsAbove k es → lookup k es ≡ none
  unfolding lookup IsAbove
  lookup-IsAbove k [] above = refl
  lookup-IsAbove k ((j, v) ∷ es) (below, above) = ground (
    arith,
    below,
    bytes_lt_irrefl k,
    ==_iff j k,
    lookup-IsAbove k es (IsAbove-lower k j es below above),
  )
