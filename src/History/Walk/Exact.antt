-- ===== src/History/Walk/Exact.antt =====
-- What the walk reports is exactly what two values differ by.
pub mod Found
pub mod Both
use pg_console.Prelude.{
  ℕ, zero, suc, ◌+◌, ◌≤◌, ◌≡◌, refl, sym, ap, ◌∙◌, arith, Bool, true, false, Option, none, some,
  List, [], ◌∷◌, ◌++◌, String, ◌⊎◌, inl, inr,
}
use pg_console.Prelude.Eq.{Eq, string_eq}
use pg_console.Prelude.Dict.{Dict, lookup}
use pg_console.History.Values.{
  Value, array, object, Items, no_items, item, Members, member_at, item_at, named_elements, pairing,
  leaves, json_equal,
}
use pg_console.History.Paths.{FieldPath, field_path_key, field_path_named, field_path_index}
use pg_console.History.Walk.{DiffEntry, Codec, added, removed, changed}

-- A part of a value: under a key, of a list's elements by name, or by position.
pub data Step : Type 0 where
  key : String → Step
  named : String → Step
  index : ℕ → Step

abbrev pub extend : FieldPath → Step → FieldPath
extend path (key k) = field_path_key path k
extend path (named name) = field_path_named path name
extend path (index i) = field_path_index path i

unfoldable pub Occurs : {A : Type 0} → A → List A → Type 0
Occurs x [] = ⊥
Occurs x (y ∷ ys) = (y ≡ x) ⊎ Occurs x ys

pub Occurs-append :
    {A : Type 0} (x : A) (ys zs : List A) → Occurs x (ys ++ zs) → Occurs x ys ⊎ Occurs x zs
unfolding Occurs
Occurs-append x [] zs there = inr there
Occurs-append x (y ∷ ys) zs (inl here) = inl (inl here)
Occurs-append x (y ∷ ys) zs (inr there) = elim (Occurs-append x ys zs there) [
  | inl first ↦ inl (inr first)
  | inr second ↦ inr second
]

pub Occurs-append_left : {A : Type 0} (x : A) (ys zs : List A) → Occurs x ys → Occurs x (ys ++ zs)
unfolding Occurs
Occurs-append_left x [] zs there = absurd there
Occurs-append_left x (y ∷ ys) zs (inl here) = inl here
Occurs-append_left x (y ∷ ys) zs (inr there) = inr (Occurs-append_left x ys zs there)

pub Occurs-append_right : {A : Type 0} (x : A) (ys zs : List A) → Occurs x zs → Occurs x (ys ++ zs)
unfolding Occurs
Occurs-append_right x [] zs there = there
Occurs-append_right x (y ∷ ys) zs there = inr (Occurs-append_right x ys zs there)

module _ {F : Type 0} where
  abbrev pub found_in : String → Option (Dict String (Value F)) → Option (Value F)
  found_in name none = none
  found_in name (some elements) = lookup name elements

  abbrev pub part : Step → Value F → Option (Value F)
  part (key k) (object ms) = member_at k ms
  part (named name) (array vs) = found_in name (named_elements vs)
  part (index i) (array vs) = item_at vs i
  part _ _ = none

  -- Whether two values are compared part by part, and how: objects by their keys, lists by names
  -- where each element of both has one of its own, and other lists by positions.
  abbrev pub Compares : Step → Value F → Value F → Type 0
  Compares (key k) (object ms) (object ns) = Unit
  Compares (named name) (array vs) (array ws) =
      (old : Dict String (Value F)) × (named_elements vs ≡ some old)
      × (new : Dict String (Value F)) × (named_elements ws ≡ some new)
  Compares (index i) (array vs) (array ws) = (named_elements vs ≡ none) ⊎ (named_elements ws ≡ none)
  Compares _ _ _ = ⊥

module _ {F : Type 0} ⦃e : Eq F⦄ (codec : Codec F) where
  -- What two values at a path differ by: they are not compared by parts and are not equal, or one has
  -- a part that the other has not, or a part that both have differs.
  pub data Differs (entry : DiffEntry) : FieldPath → Value F → Value F → Type 0 where
    unlike :
        {path : FieldPath} {before after : Value F}
        → pairing before after ≡ leaves
        → json_equal before after ≡ false
        → changed codec path before after ≡ entry
        → Differs entry path before after
    gained :
        {path : FieldPath} {before after : Value F} (s : Step) (w : Value F)
        → Compares s before after
        → part s before ≡ none
        → part s after ≡ some w
        → added codec (extend path s) w ≡ entry
        → Differs entry path before after
    lost :
        {path : FieldPath} {before after : Value F} (s : Step) (v : Value F)
        → Compares s before after
        → part s before ≡ some v
        → part s after ≡ none
        → removed codec (extend path s) v ≡ entry
        → Differs entry path before after
    inside :
        {path : FieldPath} {before after : Value F} (s : Step) (v w : Value F)
        → Compares s before after
        → part s before ≡ some v
        → part s after ≡ some w
        → Differs entry (extend path s) v w
        → Differs entry path before after
