-- ===== src/Web/Gate.antt =====
-- Which requests pass the gate of a route.
use pg_console.Prelude.{
  ◌≡◌, ◌≤◌, ◌⊎◌, refl, ap, ◌∙◌, arith, false, some, [], ltb, inl, inr, Bool-cases, Option-cases,
}
use pg_console.Prelude.Eq.{◌==◌, string_eq}
use pg_console.Authz.{Tier, parse_level}
use pg_console.Ops.Identity.{Identity, from_request}
use pg_console.Web.{Request, Auth, Response, rank, level, identified, require_level}

-- A request with a usable identity and the level that a route asks for.
pub record IsAdmitted (auth : Auth) (least : Tier) (r : Request) : Type 0 where
  pub identity : Identity
  pub named : identified auth.extractor r ≡ some identity
  pub levelled : (auth.level_header == "") ≡ false
  pub high : rank least ≤ rank (parse_level (r.header auth.level_header))

-- The gate refuses every request but these.
pub require_level-cases :
    {A : Type 0} (auth : Auth) (least : Tier) (next : Request → Response A) (r : Request)
    → (((require_level auth least next r).done ≡ []) × ¬ IsAdmitted auth least r)
      ⊎ (IsAdmitted auth least r × (require_level auth least next r ≡ next r))
unfolding require_level level
require_level-cases auth least next r = elim (Option-cases auth.extractor) [
  | inl unwired ↦ inl (
    rw (unwired, require_level) refl,
    λ p. ground (arith, p.named, ap (λ x. identified x r) unwired),
  )
  | inr (e, wired) ↦ (elim (Bool-cases (auth.level_header == "")) [
    | inl unnamed ↦
        inl (rw (wired, require_level, unnamed) refl, λ p. ground (arith, p.levelled, unnamed))
    | inr header ↦ (elim (Option-cases (from_request e r.header)) [
      | inl unknown ↦ inl (
        rw (wired, require_level, header, unknown) refl,
        λ p. ground (arith, p.named, ap (λ x. identified x r) wired, unknown),
      )
      | inr (identity, known) ↦
          (elim (Bool-cases (ltb (rank (parse_level (r.header auth.level_header))) (rank least))) [
            | inl low ↦ inl (
              rw (wired, require_level, header, known, level, header, low) refl,
              λ p. ground (arith, p.high, low),
            )
            | inr high ↦ inr (
              record {
                identity = identity;
                named = ap (λ x. identified x r) wired ∙ known;
                levelled = header;
                high = ground (arith, high);
              },
              rw (wired, require_level, header, known, level, header, high) refl,
            )
          ])
    ])
  ])
]
