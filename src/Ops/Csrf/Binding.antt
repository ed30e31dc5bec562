-- ===== src/Ops/Csrf/Binding.antt =====
-- What a confirmation token is accepted for.
use pg_console.Prelude.{
  ℕ, subst, ◌+◌, ◌^◌, ◌≡◌, ◌≢◌, ◌≤◌, ◌<◌, ◌⊎◌, ◌↔◌, refl, sym, ap, ◌∙◌, arith, true, false, ◌&&◌,
  none, some, List, [], ◌∷◌, ◌++◌, inl, inr, Bool-cases, Option-cases,
}
use pg_console.Prelude.Eq.{◌==◌, ==_iff, nat_eq, list_eq}
use mathlib.Core.Option.{some-injective}
use pg_console.Ops.Csrf.{
  Tokens, IsTokens, Csrf, all_digits, split_dot, age, is_fresh, message, mac, issue, verify,
  csrf_max_age,
}

-- Where a time is in the time of the clock and no more than the age bound before it.
abbrev pub InTime : ℕ → ℕ → Type 0
InTime now issued = (issued ≤ now) × (now ≤ issued + csrf_max_age)

-- The difference wraps round for a time far off, and never into the age bound.
is_fresh_iff :
    (now issued : ℕ)
    → csrf_max_age ≤ now
    → now < 2 ^ 63
    → issued < 2 ^ 64
    → (is_fresh now issued ≡ true) ↔ InTime now issued
unfolding is_fresh age
is_fresh_iff now issued late low range = ground arith

split_dot-digits :
    (stamp code : List ℕ)
    → all_digits stamp ≡ true
    → split_dot (stamp ++ b'.' ∷ code) ≡ some (stamp, code)
unfolding split_dot
split_dot-digits [] code digits = refl
split_dot-digits (c ∷ cs) code digits = ground (arith, split_dot-digits cs code)

all_digits-zero : (before after : List ℕ) → all_digits (before ++ 0 ∷ after) ≡ false
all_digits-zero [] after = refl
all_digits-zero (c ∷ cs) after = ground (arith, all_digits-zero cs after)

-- The last zero divides a message into its context and its time.
split_zero :
    (a b p q : List ℕ)
    → all_digits p ≡ true
    → all_digits q ≡ true
    → a ++ 0 ∷ p ≡ b ++ 0 ∷ q
    → (a ≡ b) × (p ≡ q)
split_zero [] [] p q dp dq same = (refl, cc same)
split_zero [] (c ∷ b) p q dp dq same = absurd (ground (arith, same, all_digits-zero b q))
split_zero (c ∷ a) [] p q dp dq same = absurd (ground (arith, same, all_digits-zero a p))
split_zero (c ∷ a) (d ∷ b) p q dp dq same =
    let (r, s) = split_zero a b p q dp dq (cc same) in (cc (same, r), s)

module _ (t : Tokens) where
  format_int-injective :
      (h : IsTokens t) (m n : ℕ) → m < 2 ^ 63 → n < 2 ^ 63 → t.format_int m ≡ t.format_int n → m ≡ n
  format_int-injective h m n p q same =
      some-injective m n (sym (h.reads_back m p) ∙ ap t.parse_int same ∙ h.reads_back n q)

  message-injective :
      (h : IsTokens t) (context other : List ℕ) (m n : ℕ)
      → m < 2 ^ 63
      → n < 2 ^ 63
      → message t context m ≡ message t other n
      → (context ≡ other) × (m ≡ n)
  unfolding message
  message-injective h context other m n p q same =
      let (r, s) =
        split_zero context other (t.format_int m) (t.format_int n) (h.digits_only m p)
          (h.digits_only n q) same in
      (r, format_int-injective h m n p q s)

  -- What `verify` asks of a token.
  abbrev pub Accepted : Csrf → List ℕ → List ℕ → ℕ → Type 0
  Accepted c context token now =
      (stamp : List ℕ) × (code : List ℕ) × (split_dot token ≡ some (stamp, code))
      × (issued : ℕ) × (t.parse_int stamp ≡ some issued)
      × InTime now issued
      × (code ≡ mac t c context issued)

  module _ (c : Csrf) (context token : List ℕ) (now : ℕ) where
    verify-undotted : split_dot token ≡ none → verify t c context token now ≡ false
    unfolding verify
    verify-undotted no_dot = rw (no_dot, verify) refl

    verify-unread :
        (stamp code : List ℕ)
        → split_dot token ≡ some (stamp, code)
        → t.parse_int stamp ≡ none
        → verify t c context token now ≡ false
    unfolding verify
    verify-unread stamp code dot unread = rw (dot, verify, unread) refl

    verify-read :
        (stamp code : List ℕ) (issued : ℕ)
        → split_dot token ≡ some (stamp, code)
        → t.parse_int stamp ≡ some issued
        → verify t c context token now ≡ (is_fresh now issued && code == mac t c context issued)
    unfolding verify
    verify-read stamp code issued dot read = rw (dot, verify, read) refl

    -- A token is accepted exactly if it has a time before its first dot and the code of the context and
    -- that time after it, and the time is no more than ten minutes back and not in the future; no time
    -- far off is taken for a recent one where the difference wraps round.
    pub verify_iff :
        IsTokens t
        → csrf_max_age ≤ now
        → now < 2 ^ 63
        → (verify t c context token now ≡ true) ↔ Accepted c context token now
    verify_iff h late low = (
      (λ accepted. elim (Option-cases (split_dot token)) [
        | inl no_dot ↦ absurd (ground (arith, accepted, verify-undotted no_dot))
        | inr ((stamp, code), dot) ↦ (elim (Option-cases (t.parse_int stamp)) [
          | inl unread ↦ absurd (ground (arith, accepted, verify-unread stamp code dot unread))
          | inr (issued, read) ↦
              let fresh : is_fresh now issued ≡ true =
                ground (arith, accepted, verify-read stamp code issued dot read) in
              let same : (code == mac t c context issued) ≡ true =
                ground (arith, accepted, verify-read stamp code issued dot read) in
              (
                stamp,
                code,
                dot,
                issued,
                read,
                (is_fresh_iff now issued late low (h.in_range stamp issued read)).0 fresh,
                (==_iff code (mac t c context issued)).0 same,
              )
        ])
      ]),
      (λ (stamp, code, dot, issued, read, timely, same).
          verify-read stamp code issued dot read
          ∙ ground (
            arith,
            (is_fresh_iff now issued late low (h.in_range stamp issued read)).1 timely,
            (==_iff code (mac t c context issued)).1 same,
          )),
    )

  -- Two messages with one code.
  abbrev pub Collision : Csrf → Type 0
  Collision c = (m : List ℕ) × (n : List ℕ) × (m ≢ n) × (t.hex_hmac c.key m ≡ t.hex_hmac c.key n)

  module _ (h : IsTokens t) (c : Csrf) (context : List ℕ) (issued now : ℕ)
      (late : csrf_max_age ≤ now) (low : now < 2 ^ 63) (early : issued < 2 ^ 63) where
    issue-split :
        split_dot (issue t c context issued) ≡ some (t.format_int issued, mac t c context issued)
    unfolding issue
    issue-split =
        split_dot-digits (t.format_int issued) (mac t c context issued) (h.digits_only issued early)

    -- For clock times from ten minutes on, below 2 ^ 63: a token that is issued verifies for its context
    -- exactly from its issue to ten minutes after it.
    pub verify-issue :
        (verify t c context (issue t c context issued) now ≡ true) ↔ InTime now issued
    verify-issue =
        let back = verify_iff c context (issue t c context issued) now h late low in
        (
          (λ accepted.
              let (stamp, code, dot, at, read, timely, same) = back.0 accepted in
              let stamps : t.format_int issued ≡ stamp =
                ap (λ (s, k). s) (some-injective _ _ (sym issue-split ∙ dot)) in
              let times : issued ≡ at =
                some-injective issued at
                  (sym (h.reads_back issued early) ∙ ap t.parse_int stamps ∙ read) in
              subst (InTime now) (sym times) timely),
          (λ timely. back.1 (
            t.format_int issued,
            mac t c context issued,
            issue-split,
            issued,
            h.reads_back issued early,
            timely,
            refl,
          )),
        )

    -- A token with the code of an issued one, whatever time it states, is accepted for no other context
    -- and only in time for the one at which that code was issued, or else two messages have one code.
    pub verify-binds :
        (other token stamp : List ℕ)
        → split_dot token ≡ some (stamp, mac t c context issued)
        → verify t c other token now ≡ true
        → ((other ≡ context) × InTime now issued) ⊎ Collision c
    unfolding mac
    verify-binds other token stamp dot accepted =
        let (stamp', code, dot', at, read, timely, same) =
          (verify_iff c other token now h late low).0 accepted in
        let codes : mac t c context issued ≡ code =
          ap (λ (s, k). k) (some-injective _ _ (sym dot ∙ dot')) in
        elim (Bool-cases (message t context issued == message t other at)) [
          | inl one ↦
              let (r, s) =
                message-injective h context other issued at early (omega (arith, timely, low))
                  ((==_iff (message t context issued) (message t other at)).0 one) in
              inl (sym r, subst (InTime now) (sym s) timely)
          | inr two ↦ inr (
            message t context issued,
            message t other at,
            (λ e.
                ground (arith, two, (==_iff (message t context issued) (message t other at)).1 e)),
            codes ∙ same,
          )
        ]
