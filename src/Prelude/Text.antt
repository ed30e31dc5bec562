-- ===== src/Prelude/Text.antt =====
-- Texts as lists of code points.
use Prim.Native.Nat.{ℕ}
use Prim.Native.Char.{code}
use Prim.Native.String.{String}
use mathlib.Core.List.{List, [], ◌∷◌}
use Prim.Native.Nat.{suc, zero, compare, eq}
use Prim.Native.Nat.compare
use mathlib.Core.Path.{◌≡◌, refl, subst, ap, ◌∙◌}
use Prim.Native.Char.{Char}
use text.Mathlib.TextEquality.{codes_equal}

abbrev pub codes : (text : String) → List ℕ
codes String.[] = []
codes (String.◌∷◌ first rest) = let others = codes rest in code first ∷ others

compare_self : (n : ℕ) → compare n n ≡ eq
compare_self zero = compare.zero-zero
compare_self (suc n) = compare.suc-suc n n ∙ compare_self n

code-injective : (c d : Char) → code c ≡ code d → c ≡ d
code-injective c d same =
    codes_equal c d (subst (λ n. compare (code c) n ≡ eq) same (compare_self (code c)))

pub codes-injective : (s t : String) → codes s ≡ codes t → s ≡ t
codes-injective String.[] String.[] same = refl
codes-injective String.[] (String.◌∷◌ d t) same = absurd (cc same)
codes-injective (String.◌∷◌ c s) String.[] same = absurd (cc same)
codes-injective (String.◌∷◌ c s) (String.◌∷◌ d t) same =
    let first : code c ≡ code d = cc same in
    let rest : codes s ≡ codes t = cc same in
    ap (λ x. String.◌∷◌ x s) (code-injective c d first)
    ∙ ap (String.◌∷◌ d) (codes-injective s t rest)
