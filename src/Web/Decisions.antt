-- ===== src/Web/Decisions.antt =====
-- Which request decides on an access request, and what is recorded of it.
use pg_console.Prelude.{
  ℕ, ◌≡◌, ◌≤◌, ◌⊎◌, refl, sym, subst, ap, ◌∙◌, arith, true, false, ◌&&◌, Option, some, List, [],
  ◌∷◌, String, codes, inl, inr, Bool-cases, Option-cases,
}
use mathlib.Core.Option.{some-injective}
use pg_console.Prelude.Eq.{◌==◌, ==_iff, string_eq, nat_eq, list_eq}
use pg_console.Authz.{
  Tier, tier_none, tier_view, tier_power_user, tier_dba, tier_name, grantable_levels,
}
use pg_console.Ops.Csrf.{Tokens, Csrf}
use pg_console.Ops.Redact.{Errors}
use pg_console.Ops.Review.{
  ReviewEvent, status_written, decision_audited, action_approve, action_deny, grantable,
  grantable_in, audit_outcome, write_decision, decide, verify_decision,
}
use pg_console.Web.{
  Request, Auth, Response, rank, same_origin_post, pod_name, decided_by, decide_form,
  decide_with_form, handle_access_decision, post_decision,
}
use pg_console.Web.Gate.{IsAdmitted, require_level-cases}

grantable-tier :
    (level : List ℕ)
    → grantable level ≡ true
    → (tier : Tier) × (level ≡ codes (tier_name tier)) × (1 ≤ rank tier)
unfolding grantable grantable_in grantable_levels tier_name
grantable-tier level granted = elim (Bool-cases (level == codes "view")) [
  | inl view ↦ (tier_view, (==_iff level (codes "view")).0 view, omega arith)
  | inr other ↦ (elim (Bool-cases (level == codes "poweruser")) [
    | inl power ↦ (tier_power_user, (==_iff level (codes "poweruser")).0 power, omega arith)
    | inr neither ↦ (
      tier_dba,
      (==_iff level (codes "dba")).0 (ground (arith, granted, other, neither)),
      omega arith,
    )
  ])
]

tier-grantable : (tier : Tier) → 1 ≤ rank tier → grantable (codes (tier_name tier)) ≡ true
unfolding grantable grantable_in grantable_levels tier_name
tier-grantable tier_none high = absurd (omega (arith, high))
tier-grantable tier_view high = refl
tier-grantable tier_power_user high = refl
tier-grantable tier_dba high = refl

-- What a decision records: an approval the level of a tier, and a denial none.
abbrev pub Grants : String → List ℕ → String → List ℕ → Type 0
Grants action chosen state granted =
    ((action ≡ action_approve)
      × (state ≡ "approved")
      × (granted ≡ chosen)
      × (tier : Tier) × (chosen ≡ codes (tier_name tier))
      × (1 ≤ rank tier))
    ⊎ ((action ≡ action_deny) × (state ≡ "denied") × (granted ≡ []))

-- The writes among some events.
unfoldable pub writes : List ReviewEvent → List ReviewEvent
writes [] = []
writes (status_written name state level user at ∷ events) =
    status_written name state level user at ∷ writes events
writes (decision_audited action name level outcome user ∷ events) = writes events

ungranted :
    (action : String) (chosen : List ℕ) (state : String) (granted : List ℕ)
    → (action == action_approve && grantable chosen) ≡ false
    → (action == action_deny) ≡ false
    → ¬ Grants action chosen state granted
ungranted action chosen state granted refused other grants = elim grants [
  | inl (approves, st, own, tier, level, high) ↦ ground (
    arith,
    refused,
    (==_iff action action_approve).1 approves,
    ap grantable level ∙ tier-grantable tier high,
  )
  | inr (denies, st, nothing) ↦ ground (arith, other, (==_iff action action_deny).1 denies)
]

module _ {E : Type 0} (errors : Errors E) (writer : ReviewEvent → Option E) where
  decide-cases :
      (name : List ℕ) (action : String) (chosen user : List ℕ) (now : ℕ)
      → ((writes (decide errors writer name action chosen user now).events ≡ [])
          × ((state : String) (granted : List ℕ) → ¬ Grants action chosen state granted))
        ⊎ ((state : String) × (granted : List ℕ) × Grants action chosen state granted
            × (decide errors writer name action chosen user now
                ≡ write_decision errors writer name action state granted user now))
  unfolding decide writes
  decide-cases name action chosen user now = elim (Bool-cases (action == action_approve)) [
    | inl approves ↦ (elim (Bool-cases (grantable chosen)) [
      | inl known ↦
          let (tier, level, high) = grantable-tier chosen known in
          inr (
            "approved",
            chosen,
            inl ((==_iff action action_approve).0 approves, refl, refl, tier, level, high),
            rw (decide, approves, known) refl,
          )
      | inr unknown ↦ inl (
        rw (decide, approves, unknown) refl,
        λ state granted.
            ungranted action chosen state granted (ground (arith, unknown))
              (ap (λ a. a == action_deny) ((==_iff action action_approve).0 approves)),
      )
    ])
    | inr not_approve ↦ (elim (Bool-cases (action == action_deny)) [
      | inl denies ↦ inr (
        "denied",
        [],
        inr ((==_iff action action_deny).0 denies, refl, refl),
        rw (decide, not_approve, denies) refl,
      )
      | inr neither ↦ inl (
        rw (decide, not_approve, neither) refl,
        λ state granted.
            ungranted action chosen state granted (ground (arith, not_approve)) neither,
      )
    ])
  ]

module _ {E : Type 0} (errors : Errors E) (t : Tokens) (csrf : Csrf) (auth : Auth)
    (writer : ReviewEvent → Option E) where
  -- A request that may decide, and what it decides: it is admitted as a dba's, from the console's own
  -- pages, its form parses, its token is for the action and the name, and what is chosen can be granted.
  pub record IsDecisive (action : String) (now : ℕ) (r : Request) : Type 0 where
    pub admitted : IsAdmitted auth tier_dba r
    pub valid_name : pod_name r.name ≡ true
    pub same_origin : same_origin_post r ≡ true
    pub form : String → List ℕ
    pub parsed : r.form ≡ some form
    pub confirmed : verify_decision t csrf r.name action (form "csrf") now ≡ true
    pub state : String
    pub granted : List ℕ
    pub grants : Grants action (form "level") state granted

  module _ (action : String) (now : ℕ) (r : Request) where
    -- One write with the user, and one audit line.
    abbrev pub Recorded : Response ReviewEvent → IsDecisive action now r → Type 0
    Recorded response p =
        let write = status_written r.name p.state p.granted p.admitted.identity.user now in
        response.done ≡ (
          write
          ∷ decision_audited action r.name p.granted (audit_outcome errors writer (writer write))
              p.admitted.identity.user
          ∷ [])

    abbrev pub Guards : Response ReviewEvent → Type 0
    Guards response =
        ((writes response.done ≡ []) × ¬ IsDecisive action now r)
        ⊎ ((p : IsDecisive action now r) × Recorded response p)

    decided_by-admitted :
        (a : IsAdmitted auth tier_dba r) → decided_by errors t csrf auth writer r ≡ a.identity.user
    decided_by-admitted a = rw (decided_by, a.named) refl

    decide_form-Guards :
        (form : String → List ℕ)
        → IsAdmitted auth tier_dba r
        → pod_name r.name ≡ true
        → same_origin_post r ≡ true
        → r.form ≡ some form
        → Guards (decide_form errors t csrf auth writer action form now r)
    unfolding decide_form write_decision writes
    decide_form-Guards form admitted valid own parsed =
        elim (Bool-cases (verify_decision t csrf r.name action (form "csrf") now)) [
          | inr forged ↦ inl (
            rw (decide_form, forged) refl,
            λ p. ground (
              arith,
              forged,
              p.confirmed,
              ap (λ f. verify_decision t csrf r.name action (f "csrf") now)
                  (some-injective p.form form (sym p.parsed ∙ parsed)),
            ),
          )
          | inl confirmed ↦
              (elim (decide-cases errors writer r.name action (form "level")
                (decided_by errors t csrf auth writer r) now) [
                  | inl (nothing, refused) ↦ inl (
                    rw (decide_form, confirmed) nothing,
                    λ p. refused p.state p.granted (
                        subst (λ f. Grants action (f "level") p.state p.granted)
                          (some-injective p.form form (sym p.parsed ∙ parsed)) p.grants),
                  )
                  | inr (state, granted, grants, decides) ↦ inr (
                    record {
                      admitted = admitted;
                      valid_name = valid;
                      same_origin = own;
                      form = form;
                      parsed = parsed;
                      confirmed = confirmed;
                      state = state;
                      granted = granted;
                      grants = grants;
                    },
                    rw
                        (
                          decide_form,
                          confirmed,
                          decides,
                          write_decision,
                          decided_by-admitted admitted,
                        )
                        refl,
                  )
                ])
        ]

    -- A request is decisive if the proxy asserts the dba level and a usable identity for it, it is not
    -- marked as from another site, the name is valid, its form parses, its token verifies for the action
    -- and the name, and it denies, or approves with the name of a tier above none. Either a request is
    -- not decisive, and no status is written for it, or it is, and then the status is written once with
    -- the user, the level of an approval and none for a denial, followed by one audit line.
    pub post_decision-Guards : Guards (post_decision errors t csrf auth writer action now r)
    unfolding post_decision handle_access_decision writes
    post_decision-Guards =
        elim (require_level-cases auth tier_dba
          (handle_access_decision errors t csrf auth writer action now) r) [
            | inl (refused, out) ↦ inl (ap writes refused, λ p. out p.admitted)
            | inr (admitted, passed) ↦ (elim (Bool-cases (pod_name r.name)) [
              | inr invalid ↦ inl (
                rw (passed, handle_access_decision, invalid) refl,
                λ p. ground (arith, invalid, p.valid_name),
              )
              | inl valid ↦ (elim (Bool-cases (same_origin_post r)) [
                | inr other ↦ inl (
                  rw (passed, handle_access_decision, valid, other) refl,
                  λ p. ground (arith, other, p.same_origin),
                )
                | inl own ↦ (elim (Option-cases r.form) [
                  | inl unparsed ↦ inl (
                    rw (passed, handle_access_decision, valid, own)
                        (ap
                          (λ f.
                            writes (decide_with_form errors t csrf auth writer action f now r).done)
                          unparsed),
                    λ p. ground (arith, unparsed, p.parsed),
                  )
                  | inr (form, parsed) ↦
                      let same : post_decision errors t csrf auth writer action now r
                          ≡ decide_form errors t csrf auth writer action form now r =
                        rw (passed, handle_access_decision, valid, own)
                          (ap (λ f. decide_with_form errors t csrf auth writer action f now r)
                            parsed) in
                      subst Guards (sym same) (decide_form-Guards form admitted valid own parsed)
                ])
              ])
            ])
          ]
