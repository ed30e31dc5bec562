-- ===== src/Authz/Parse.antt =====
-- Which values grant a tier.
use mathlib.Core.List.{reverse-append, reverse-reverse, append_assoc}
use pg_console.Prelude.{
  ℕ, ◌≡◌, ◌≢◌, refl, subst, sym, ap, ◌∙◌, ◌↔◌, true, false, List, [], ◌∷◌, ◌++◌, reverse, codes,
  arith, inl, inr, Bool-cases,
}
use pg_console.Authz.{
  Tier, tier_none, tier_view, tier_power_user, tier_dba, tier_name, any_control, is_space,
  trim_left, trim_space, same, match_level, parse_level, level_view, level_power_user, level_dba,
}

abbrev pub AllSpace : List ℕ → Type 0
AllSpace [] = Unit
AllSpace (r ∷ raw) = (is_space r ≡ true) × AllSpace raw

-- The value is the tier's name between spaces, and has no control character.
pub record Names (t : Tier) (raw : List ℕ) : Type 0 where
  pub pre : List ℕ
  pub post : List ℕ
  pub pre_space : AllSpace pre
  pub post_space : AllSpace post
  pub split : raw ≡ pre ++ codes (tier_name t) ++ post
  pub clean : any_control raw ≡ false

AllSpace-append : (a b : List ℕ) → AllSpace a → AllSpace b → AllSpace (a ++ b)
AllSpace-append [] b h k = k
AllSpace-append (r ∷ a) b h k = (h.0, AllSpace-append a b h.1 k)

AllSpace-reverse : (a : List ℕ) → AllSpace a → AllSpace (reverse a)
AllSpace-reverse [] h = tt
AllSpace-reverse (r ∷ a) h =
    subst AllSpace (sym (reverse-append (r ∷ []) a))
      (AllSpace-append (reverse a) (r ∷ []) (AllSpace-reverse a h.1) (h.0, tt))

-- What `trim_left` drops is space.
trimmed : (raw : List ℕ) → (pre : List ℕ) × AllSpace pre × (raw ≡ pre ++ trim_left raw)
unfolding trim_left
trimmed [] = ([], tt, refl)
trimmed (r ∷ raw) = elim (Bool-cases (is_space r)) [
  | inl space ↦
      let (pre, all, e) = trimmed raw in (r ∷ pre, (space, all), rw space (ap (λ m. r ∷ m) e))
  | inr other ↦ ([], tt, rw other refl)
]

trim_left-append :
    (pre : List ℕ) (c : ℕ) (rest : List ℕ)
    → AllSpace pre
    → is_space c ≡ false
    → trim_left (pre ++ c ∷ rest) ≡ c ∷ rest
unfolding trim_left
trim_left-append [] c rest h e = rw e
trim_left-append (r ∷ pre) c rest h e = rw h.0 (trim_left-append pre c rest h.1 e)

same-eq : (xs ys : List ℕ) → same xs ys ≡ true → xs ≡ ys
unfolding same
same-eq [] [] h = refl
same-eq [] (y ∷ ys) h = cc
same-eq (x ∷ xs) [] h = cc
same-eq (x ∷ xs) (y ∷ ys) h = ground (arith, same-eq xs ys)

match_level-eq :
    (level : List ℕ) (t : Tier)
    → match_level level ≡ t
    → t ≢ tier_none
    → level ≡ codes (tier_name t)
unfolding match_level tier_name
match_level-eq level tier_none e n = absurd (n refl)
match_level-eq level tier_view e n = ground (arith, same-eq level (codes level_view))
match_level-eq level tier_power_user e n = ground (arith, same-eq level (codes level_power_user))
match_level-eq level tier_dba e n = ground (arith, same-eq level (codes level_dba))

-- What `trim_space` drops is space, at both ends.
trimmed_space :
    (raw : List ℕ)
    → (pre : List ℕ) × (post : List ℕ) × AllSpace pre
      × AllSpace post
      × (raw ≡ pre ++ trim_space raw ++ post)
unfolding trim_space
trimmed_space raw =
    let (pre, all, e) = trimmed raw in
    let m = trim_left raw in
    let (back, all', f) = trimmed (reverse m) in
    let whole : m ≡ reverse (trim_left (reverse m)) ++ reverse back =
      sym (reverse-reverse m) ∙ ap reverse f ∙ reverse-append back (trim_left (reverse m)) in
    (
      pre,
      reverse back,
      all,
      AllSpace-reverse back all',
      e ∙ ap (λ w. pre ++ w) whole ∙ sym (append_assoc pre (trim_space raw) (reverse back)),
    )

trim_space-append :
    (pre : List ℕ) (c d : ℕ) (rest back post : List ℕ)
    → AllSpace pre
    → AllSpace post
    → is_space c ≡ false
    → is_space d ≡ false
    → reverse (c ∷ rest) ≡ d ∷ back
    → trim_space (pre ++ c ∷ rest ++ post) ≡ c ∷ rest
unfolding trim_space
trim_space-append pre c d rest back post p q e f r =
    let w = c ∷ rest in
    let left : trim_left (pre ++ w ++ post) ≡ w ++ post =
      ap trim_left (append_assoc pre w post) ∙ trim_left-append pre c (rest ++ post) p e in
    let right : trim_left (reverse (w ++ post)) ≡ reverse w =
      ap trim_left (reverse-append w post ∙ ap (λ m. reverse post ++ m) r)
      ∙ trim_left-append (reverse post) d back (AllSpace-reverse post q) f
      ∙ sym r in
    rw left (rw right (reverse-reverse w))

Names-sound : (t : Tier) (raw : List ℕ) → t ≢ tier_none → parse_level raw ≡ t → Names t raw
unfolding parse_level
Names-sound t raw n e = elim (Bool-cases (any_control raw)) [
  | inl control ↦ absurd (n (ground arith))
  | inr clean ↦
      let (pre, post, p, q, split) = trimmed_space raw in
      let level = match_level-eq (trim_space raw) t (ground arith) n in
      record {
        pre = pre;
        post = post;
        pre_space = p;
        post_space = q;
        split = split ∙ ap (λ w. pre ++ w ++ post) level;
        clean = clean;
      }
]

parse_named :
    (t : Tier) (raw : List ℕ)
    → t ≢ tier_none
    → Names t raw
    → trim_space raw ≡ codes (tier_name t)
    → parse_level raw ≡ t
unfolding parse_level match_level tier_name
parse_named tier_none raw n h e = absurd (n refl)
parse_named tier_view raw n h e = rw (h.clean, e) refl
parse_named tier_power_user raw n h e = rw (h.clean, e) refl
parse_named tier_dba raw n h e = rw (h.clean, e) refl

trimmed_name :
    (t : Tier) (raw : List ℕ) → t ≢ tier_none → Names t raw → trim_space raw ≡ codes (tier_name t)
unfolding tier_name is_space
trimmed_name tier_none raw n h = absurd (n refl)
trimmed_name tier_view raw n h =
    ap trim_space h.split
    ∙ trim_space-append h.pre b'v' b'w' _ _ h.post h.pre_space h.post_space refl refl refl
trimmed_name tier_power_user raw n h =
    ap trim_space h.split
    ∙ trim_space-append h.pre b'p' b'r' _ _ h.post h.pre_space h.post_space refl refl refl
trimmed_name tier_dba raw n h =
    ap trim_space h.split
    ∙ trim_space-append h.pre b'd' b'a' _ _ h.post h.pre_space h.post_space refl refl refl

-- A value grants a tier above the baseline exactly if it is the name of the tier between spaces
-- and no character of it is a control character. Every other value, the empty one and unknown
-- names included, grants none.
pub parse_level_iff :
    (t : Tier) (raw : List ℕ) → t ≢ tier_none → (parse_level raw ≡ t) ↔ Names t raw
parse_level_iff t raw n = (Names-sound t raw n, λ h. parse_named t raw n h (trimmed_name t raw n h))
