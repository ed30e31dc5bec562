-- ===== src/Prelude/Eq.antt =====
-- Equality tests as an interface: the keys of the program's maps are texts and pairs of texts.
use text.Mathlib.Text.{◌==◌ as str_eq}
use text.Mathlib.TextEquality.{eq_iff}
use pg_console.Prelude.{
  ℕ, ◌≡◌, refl, ◌≢◌, ◌↔◌, Bool, true, false, ◌&&◌, String, eqb, eqb_iff, arith, List, [], ◌∷◌,
}

-- A type with a test that decides its paths.
pub record Eq {ℓ} (K : Type ℓ) : Type ℓ where
  pub same_key : K → K → Bool
  pub same_key_iff : (j k : K) → (same_key j k ≡ true) ↔ (j ≡ k)

module _ {ℓ} {K : Type ℓ} ⦃e : Eq K⦄ where
  infix 50 ◌==◌
  abbrev pub ◌==◌ : K → K → Bool
  j == k = e.same_key j k

  pub ==_iff : (j k : K) → ((j == k) ≡ true) ↔ (j ≡ k)
  ==_iff j k = e.same_key_iff j k

  pub ==_refl : (k : K) → (k == k) ≡ true
  ==_refl k = (e.same_key_iff k k).1 refl

  pub ==-eq-false : (j k : K) → j ≢ k → (j == k) ≡ false
  ==-eq-false j k h = ground (arith, ==_iff j k)

instance abbrev pub string_eq : Eq String
string_eq = record { same_key = str_eq; same_key_iff = eq_iff }

instance abbrev pub nat_eq : Eq ℕ
nat_eq = record { same_key = eqb; same_key_iff = eqb_iff }

-- A pair of texts, such as a pod and one of its containers.
abbrev pub same_pair : String × String → String × String → Bool
same_pair (a, b) (c, d) = str_eq a c && str_eq b d

pub same_pair_iff : (p q : String × String) → (same_pair p q ≡ true) ↔ (p ≡ q)
same_pair_iff (a, b) (c, d) = ground (arith, eq_iff a c, eq_iff b d)

instance abbrev pub pair_eq : Eq (String × String)
pair_eq = record { same_key = same_pair; same_key_iff = same_pair_iff }

-- Lists, such as the bytes of a key.
module _ {K : Type 0} ⦃e : Eq K⦄ where
  abbrev pub same_list : List K → List K → Bool
  same_list [] [] = true
  same_list (j ∷ js) (k ∷ ks) = j == k && same_list js ks
  same_list [] (k ∷ ks) = false
  same_list (j ∷ js) [] = false

  pub same_list_iff : (js ks : List K) → (same_list js ks ≡ true) ↔ (js ≡ ks)
  same_list_iff [] [] = ground arith
  same_list_iff [] (k ∷ ks) = ground arith
  same_list_iff (j ∷ js) [] = ground arith
  same_list_iff (j ∷ js) (k ∷ ks) = ground (arith, ==_iff j k, same_list_iff js ks)

instance abbrev pub list_eq : {K : Type 0} ⦃e : Eq K⦄ → Eq (List K)
list_eq = record { same_key = same_list; same_key_iff = same_list_iff }
