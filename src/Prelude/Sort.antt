-- ===== src/Prelude/Sort.antt =====
-- Go's `sort.Strings` and `sort.Search`.
use Prim.Native.String
use text.Mathlib.Text.{is_le}
use pg_console.Prelude.{
  ℕ, zero, suc, ◌+◌, ◌/◌, Bool, not, List, [], ◌∷◌, String, ltb, if◌then◌else◌,
}

abbrev pub str_le : String → String → Bool
str_le s t = is_le (String.compare s t)

abbrev pub str_lt : String → String → Bool
str_lt s t = not (str_le t s)

unfoldable pub insert_sorted : String → List String → List String
insert_sorted s [] = s ∷ []
insert_sorted s (t ∷ ts) = if str_le s t then s ∷ t ∷ ts else t ∷ insert_sorted s ts

-- sort.Strings. Equal texts cannot be told apart, so the result does not depend on the algorithm.
unfoldable pub sort_strings : List String → List String
unfolding insert_sorted
sort_strings [] = []
sort_strings (s ∷ ss) = insert_sorted s (sort_strings ss)

-- The loop of sort.Search: the smallest index of [i, j) at which `f` holds, or j.
unfoldable pub search_loop : ℕ → ℕ → ℕ → (ℕ → Bool) → ℕ
search_loop zero i j f = i
search_loop (suc fuel) i j f =
    let h = (i + j) / 2 in
    let left = search_loop fuel i h f in
    let right = search_loop fuel (h + 1) j f in if ltb i j then (if f h then left else right) else i

unfoldable pub sort_search : ℕ → (ℕ → Bool) → ℕ
unfolding search_loop
sort_search n f = search_loop n 0 n f
