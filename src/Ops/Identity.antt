-- ===== src/Ops/Identity.antt =====
-- internal/identity/identity.go: the identity that the proxy forwards.
--
-- A header is the list of its code points; its length is that of its encoding.
use pg_console.Prelude.{ℕ, ◌+◌, Option, none, some, List, [], ◌∷◌, String, ltb, if◌then◌else◌}
use pg_console.Prelude.Eq.{◌==◌, string_eq}
use pg_console.Authz.{trim_space, any_control}

abbrev pub max_user_length : ℕ
max_user_length = 512

pub record Identity : Type 0 where
  pub user : List ℕ

pub record Extractor : Type 0 where
  pub user_header : String

-- The bytes of a code point in UTF-8.
abbrev pub width : ℕ → ℕ
width c = if ltb c 0x80 then 1 else if ltb c 0x800 then 2 else if ltb c 0x10000 then 3 else 4

unfoldable pub byte_length : List ℕ → ℕ
byte_length [] = 0
byte_length (c ∷ cs) = width c + byte_length cs

unfoldable pub sanitize : List ℕ → List ℕ
sanitize s = let trimmed = trim_space s in if any_control trimmed then [] else trimmed

abbrev pub usable : List ℕ → Option Identity
usable [] = none
usable (c ∷ cs) =
    if ltb max_user_length (byte_length (c ∷ cs)) then none else some (record { user = c ∷ cs })

-- `header` is `r.Header.Get`.
unfoldable pub from_request : Extractor → (String → List ℕ) → Option Identity
unfolding sanitize
from_request e header =
    if e.user_header == "" then none else usable (sanitize (header e.user_header))
