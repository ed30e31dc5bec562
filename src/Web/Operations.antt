-- ===== src/Web/Operations.antt =====
-- Which request operates on the cluster, and what is done for it.
use pg_console.Prelude.{
  ℕ, ◌≡◌, ◌⊎◌, refl, sym, subst, ap, ◌∙◌, arith, true, false, not, ◌&&◌, Option, none, some, List,
  [], ◌∷◌, String, inl, inr, Bool-cases, Option-cases, if◌then◌else◌,
}
use pg_console.Prelude.Eq.{◌==◌, ==_iff, string_eq}
use pg_console.Authz.{tier_dba}
use mathlib.Core.Option.{some-injective}
use pg_console.Ops.Csrf.{Tokens, Csrf}
use pg_console.Ops.Redact.{Errors}
use pg_console.Ops.Executor.{
  Descriptor, describe, describe_in, catalog, Actor, Mutation, Event, mutated, audit, execute,
  carry_out, outcome_of, is_empty, mutation_of, verify_operation,
}
use pg_console.Ops.Executor.Audited.{mutation_of-describe}
use pg_console.Web.Gate.{IsAdmitted, require_level-cases}
use pg_console.Web.{
  Request, Auth, Response, same_origin_post, pod_name, actor_of, result_page, execute_confirmed,
  execute_form, with_form, handle_operation_execute, post_operation,
}

describe_in-id :
    (ds : List Descriptor) (id : String) (d : Descriptor) → describe_in ds id ≡ some d → d.id ≡ id
unfolding describe_in
describe_in-id [] id d found = absurd (ground (arith, found))
describe_in-id (e ∷ ds) id d found = elim (Bool-cases (e.id == id)) [
  | inl here ↦ ground (arith, found, here, ==_iff e.id id)
  | inr later ↦ describe_in-id ds id d (ground (arith, found, later))
]

describe-id : (id : String) (d : Descriptor) → describe id ≡ some d → d.id ≡ id
unfolding describe
describe-id id d found = describe_in-id catalog id d found

pod_name-nonempty : (name : List ℕ) → pod_name name ≡ true → is_empty name ≡ false
unfolding pod_name
pod_name-nonempty [] named = absurd (ground (arith, named))
pod_name-nonempty (c ∷ cs) named = refl

-- The target that an operation is to have.
abbrev pub target_of : Descriptor → (String → List ℕ) → List ℕ
target_of d form = if d.needs_instance then form "instance" else []

module _ {E : Type 0} (errors : Errors E) (t : Tokens) (csrf : Csrf) (auth : Auth)
    (writer : Mutation → Option E) where
  abbrev pub page_status : Option E → ℕ
  page_status none = 200
  page_status (some err) = 502

  -- What is done for a request and what is answered: one call of the writer and one audit line.
  abbrev pub answer : String → List ℕ → Mutation → Actor → Response Event
  answer id target m actor = record {
    status = page_status (writer m);
    done = mutated m ∷ audit id target (outcome_of errors t writer (writer m)) actor ∷ [];
  }

  execute-known :
      (id : String) (d : Descriptor) (target : List ℕ) (actor : Actor) (now : ℕ) (m : Mutation)
      → describe id ≡ some d
      → (d.needs_instance && is_empty target) ≡ false
      → mutation_of t id target now ≡ some m
      → result_page errors t csrf auth writer (execute errors t writer id target actor now)
        ≡ answer id target m actor
  unfolding execute audit
  execute-known id d target actor now m known fits mutates = elim (Option-cases (writer m)) [
    | inl done ↦ rw (execute, known, fits, carry_out, mutates, done) refl
    | inr (err, failed) ↦ rw (execute, known, fits, carry_out, mutates, failed) refl
  ]

  -- A request that may operate: it is admitted as a dba's, from the console's own pages, its form
  -- parses, and its token is for the operation and the target.
  pub record IsPermitted (now : ℕ) (r : Request) : Type 0 where
    pub admitted : IsAdmitted auth tier_dba r
    pub operation : Descriptor
    pub described : describe r.op ≡ some operation
    pub same_origin : same_origin_post r ≡ true
    pub form : String → List ℕ
    pub parsed : r.form ≡ some form
    pub targeted : (operation.needs_instance && not (pod_name (form "instance"))) ≡ false
    pub confirmed : verify_operation t csrf r.op (target_of operation form) (form "csrf") now ≡ true

  -- What a permitted request asks for is what the handler reads.
  same_reading :
      {B : Type 0} (now : ℕ) (r : Request) (d : Descriptor) (form : String → List ℕ)
      (p : IsPermitted now r) (g : Descriptor → (String → List ℕ) → B)
      → describe r.op ≡ some d
      → r.form ≡ some form
      → g p.operation p.form ≡ g d form
  same_reading now r d form p g described parsed =
      ap (λ o. g o p.form) (some-injective p.operation d (sym p.described ∙ described))
      ∙ ap (g d) (some-injective p.form form (sym p.parsed ∙ parsed))

  -- The handler of a request that is admitted, known, of the console's own pages and parsed.
  execute_form-done :
      (now : ℕ) (r : Request) (d : Descriptor) (form : String → List ℕ)
      (a : IsAdmitted auth tier_dba r)
      → describe r.op ≡ some d
      → (d.needs_instance && not (pod_name (form "instance"))) ≡ false
      → verify_operation t csrf r.op (target_of d form) (form "csrf") now ≡ true
      → (m : Mutation) × (mutation_of t r.op (target_of d form) now ≡ some m)
        × (execute_form errors t csrf auth writer d form now r
            ≡ answer r.op (target_of d form) m (record { user = a.identity.user; verified = true }))
  unfolding execute_form execute_confirmed actor_of
  execute_form-done now r d form a described targeted confirmed =
      let (m, mutates) = mutation_of-describe t r.op (target_of d form) now d described in
      let fits : (d.needs_instance && is_empty (target_of d form)) ≡ false =
        ground (arith, targeted, pod_name-nonempty (form "instance")) in
      (
        m,
        mutates,
        rw
            (
              execute_form,
              targeted,
              execute_confirmed,
              describe-id r.op d described,
              confirmed,
              actor_of,
              a.named,
            )
            (execute-known r.op d (target_of d form)
              (record { user = a.identity.user; verified = true }) now m described fits mutates),
      )

  module _ (now : ℕ) (r : Request) where
    -- What the answer to a permitted request is.
    abbrev Answers : Response Event → IsPermitted now r → Type 0
    Answers response p =
        (m : Mutation) × (mutation_of t r.op (target_of p.operation p.form) now ≡ some m)
        × (response
            ≡ answer r.op (target_of p.operation p.form) m
                (record { user = p.admitted.identity.user; verified = true }))

    abbrev Guards : Response Event → Type 0
    Guards response =
        ((response.done ≡ []) × ¬ IsPermitted now r)
        ⊎ ((p : IsPermitted now r) × Answers response p)

    execute_form-Guards :
        (d : Descriptor) (form : String → List ℕ)
        → IsAdmitted auth tier_dba r
        → describe r.op ≡ some d
        → same_origin_post r ≡ true
        → r.form ≡ some form
        → Guards (execute_form errors t csrf auth writer d form now r)
    unfolding execute_form execute_confirmed
    execute_form-Guards d form admitted described own parsed =
        elim (Bool-cases (d.needs_instance && not (pod_name (form "instance")))) [
          | inl bad ↦ inl (
            rw (execute_form, bad) refl,
            λ p. ground (
              arith,
              bad,
              p.targeted,
              same_reading now r d form p (λ o f. o.needs_instance && not (pod_name (f "instance")))
                  described parsed,
            ),
          )
          | inr targeted ↦
              (elim (Bool-cases
                (verify_operation t csrf r.op (target_of d form) (form "csrf") now)) [
                  | inr forged ↦ inl (
                    rw
                        (
                          execute_form,
                          targeted,
                          execute_confirmed,
                          describe-id r.op d described,
                          forged,
                        )
                        refl,
                    λ p. ground (
                      arith,
                      forged,
                      p.confirmed,
                      same_reading now r d form p
                          (λ o f. verify_operation t csrf r.op (target_of o f) (f "csrf") now)
                          described parsed,
                    ),
                  )
                  | inl confirmed ↦ inr (
                    record {
                      admitted = admitted;
                      operation = d;
                      described = described;
                      same_origin = own;
                      form = form;
                      parsed = parsed;
                      targeted = targeted;
                      confirmed = confirmed;
                    },
                    execute_form-done now r d form admitted described targeted confirmed,
                  )
                ])
        ]

    -- A request is permitted if the proxy asserts the dba level and a usable identity for it, it is not
    -- marked as from another site, it names an operation of the catalog, its form parses and has a valid
    -- target where the operation needs one, and its token verifies for the operation and the target.
    -- Either a request is not permitted, and nothing is done for it, or it is, and then the operation's
    -- mutation is asked for once, followed by one audit line with the outcome and the verified user, and
    -- the status tells whether the writer failed.
    pub post_operation-Guards : Guards (post_operation errors t csrf auth writer now r)
    unfolding post_operation handle_operation_execute
    post_operation-Guards =
        elim (require_level-cases auth tier_dba
          (handle_operation_execute errors t csrf auth writer now) r) [
            | inl (refused, out) ↦ inl (refused, λ p. out p.admitted)
            | inr (admitted, passed) ↦ (elim (Option-cases (describe r.op)) [
              | inl unknown ↦ inl (
                rw (passed, handle_operation_execute, unknown) refl,
                λ p. ground (arith, unknown, p.described),
              )
              | inr (d, described) ↦ (elim (Bool-cases (same_origin_post r)) [
                | inr other ↦ inl (
                  rw (passed, handle_operation_execute, described, other) refl,
                  λ p. ground (arith, other, p.same_origin),
                )
                | inl own ↦ (elim (Option-cases r.form) [
                  | inl unparsed ↦ inl (
                    rw (passed, handle_operation_execute, described, own)
                        (ap (λ f. (with_form errors t csrf auth writer d f now r).done) unparsed),
                    λ p. ground (arith, unparsed, p.parsed),
                  )
                  | inr (form, parsed) ↦
                      let same : post_operation errors t csrf auth writer now r
                          ≡ execute_form errors t csrf auth writer d form now r =
                        rw (passed, handle_operation_execute, described, own)
                          (ap (λ f. with_form errors t csrf auth writer d f now r) parsed) in
                      subst Guards (sym same)
                        (execute_form-Guards d form admitted described own parsed)
                ])
              ])
            ])
          ]
