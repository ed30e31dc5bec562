-- ===== src/Metrics/Ring.antt =====
-- internal/metrics/store.go: `ring`, the fixed-capacity window.
pub mod Queue
use pg_console.Prelude.{
  ℕ, zero, suc, ◌+◌, ◌-◌, Bool, true, false, Option, none, some, List, [], ◌∷◌, ◌++◌, ltb, eqb,
  length, get_elem?, set, take, drop, replicate, if◌then◌else◌,
}

pub record Ring {ℓ} (A : Type ℓ) : Type ℓ where
  pub buf : List A
  pub next : ℕ
  pub full : Bool

module _ {ℓ} {A : Type ℓ} where
  -- `empty` is the zero value of the element type, with which `make` fills the buffer.
  unfoldable pub new_ring : ℕ → A → Ring A
  new_ring capacity empty =
      let n = if ltb capacity 1 then 1 else capacity in
      record { buf = replicate n empty; next = 0; full = false }

  -- A write at `next`, which is always in range.
  unfoldable pub push : A → Ring A → Ring A
  push v r =
      let buf = set r.buf r.next v in
      if eqb (r.next + 1) (length buf)
      then record { buf = buf; next = 0; full = true }
      else record { buf = buf; next = r.next + 1; full = r.full }

  -- What `each` visits, in order.
  unfoldable pub each : Ring A → List A
  each r = if r.full then drop r.next r.buf ++ take r.next r.buf else take r.next r.buf

  unfoldable pub last : Ring A → Option A
  last r =
      if ltb 0 r.next
      then get_elem? r.buf (r.next - 1)
      else if r.full
      then get_elem? r.buf (length r.buf - 1)
      else none

  unfoldable pub push_all : List A → Ring A → Ring A
  push_all [] r = r
  push_all (v ∷ vs) r = push_all vs (push v r)
