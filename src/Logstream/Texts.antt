-- ===== src/Logstream/Texts.antt =====
-- What the log rules ask of a text: Go's strings.Contains and strings.Split on bytes.
use pg_console.Prelude.{ℕ, Bool, true, false, ◌&&◌, ◌||◌, List, [], ◌∷◌, ◌++◌, eqb, if◌then◌else◌}

abbrev pub Bytes : Type 0
Bytes = List ℕ

unfoldable pub starts_with : Bytes → Bytes → Bool
starts_with needle [] = elim needle [ [] ↦ true | c ∷ cs ↦ false ]
starts_with [] (x ∷ xs) = true
starts_with (c ∷ cs) (x ∷ xs) = eqb c x && starts_with cs xs

unfoldable pub contains : Bytes → Bytes → Bool
unfolding starts_with
contains [] needle = starts_with needle []
contains (x ∷ xs) needle = starts_with needle (x ∷ xs) || contains xs needle

abbrev pub is_empty : Bytes → Bool
is_empty [] = true
is_empty (x ∷ xs) = false

-- The pieces between separators; `piece` is the start of the current one.
unfoldable pub split_from : ℕ → Bytes → Bytes → List Bytes
split_from sep piece [] = piece ∷ []
split_from sep piece (c ∷ cs) =
    let cut = split_from sep [] cs in
    let more = split_from sep (piece ++ c ∷ []) cs in if eqb c sep then piece ∷ cut else more
