-- ===== src/Metrics/Ring/Queue.antt =====
-- The ring is a queue that drops its oldest element when it is full.
use pg_console.Prelude.{
  ℕ, zero, suc, ◌+◌, ◌-◌, ◌≤◌, ◌<◌, ◌≡◌, refl, sym, ap, ◌∙◌, true, false, some, List, [], ◌∷◌, ◌++◌,
  arith, ltb, eqb, length, set, take, drop, if◌then◌else◌, length-append, length-set,
  get_elem?-set_self, length-take, length-drop, length-replicate, inl, inr, Bool-cases,
}
use mathlib.Core.List.{append-nil, append_assoc}
use pg_console.Metrics.Ring.{Ring, new_ring, push, each, last, push_all}

module _ {A : Type 0} where
  -- The specification: a bounded queue, oldest first.
  unfoldable pub offer : ℕ → A → List A → List A
  offer capacity v q = if ltb (length q) capacity then q ++ v ∷ [] else drop 1 q ++ v ∷ []

  pub keep_last : ℕ → List A → List A
  keep_last capacity vs = drop (length vs - capacity) vs

  take-set :
      (xs : List A) (n : ℕ) (v : A)
      → n < length xs
      → take (suc n) (set xs n v) ≡ take n xs ++ v ∷ []
  take-set [] n v h = absurd (omega arith)
  take-set (x ∷ xs) zero v h = refl
  take-set (x ∷ xs) (suc n) v h = ap (λ r. x ∷ r) (take-set xs n v (omega arith))

  drop-set : (xs : List A) (n : ℕ) (v : A) → drop (suc n) (set xs n v) ≡ drop (suc n) xs
  drop-set [] n v = refl
  drop-set (x ∷ xs) zero v = refl
  drop-set (x ∷ xs) (suc n) v = drop-set xs n v

  set_last : (xs : List A) (n : ℕ) (v : A) → n + 1 ≡ length xs → set xs n v ≡ take n xs ++ v ∷ []
  set_last [] n v h = absurd (omega arith)
  set_last (x ∷ []) zero v h = refl
  set_last (x ∷ y ∷ xs) zero v h = absurd (omega arith)
  set_last (x ∷ xs) (suc n) v h = ap (λ r. x ∷ r) (set_last xs n v (omega arith))

  drop_all : (n : ℕ) (xs : List A) → length xs ≤ n → drop n xs ≡ []
  drop_all zero [] h = refl
  drop_all zero (x ∷ xs) h = absurd (omega arith)
  drop_all (suc n) [] h = refl
  drop_all (suc n) (x ∷ xs) h = drop_all n xs (omega arith)

  drop_nil : (n : ℕ) → drop {A = A} n [] ≡ []
  drop_nil zero = refl
  drop_nil (suc n) = refl

  drop-drop : (n : ℕ) (xs : List A) → drop 1 (drop n xs) ≡ drop (suc n) xs
  drop-drop zero [] = refl
  drop-drop zero (x ∷ xs) = refl
  drop-drop (suc n) [] = refl
  drop-drop (suc n) (x ∷ xs) = drop-drop n xs

  drop-append : (n : ℕ) (xs ys : List A) → n ≤ length xs → drop n (xs ++ ys) ≡ drop n xs ++ ys
  drop-append zero xs ys h = refl
  drop-append (suc n) [] ys h = absurd (omega arith)
  drop-append (suc n) (x ∷ xs) ys h = drop-append n xs ys (omega arith)

  -- The next write is in range, and a ring that is not full has nothing beyond it.
  pub record IsRing (capacity : ℕ) (r : Ring A) : Type 0 where
    pub size : length r.buf ≡ capacity
    pub in_range : r.next < capacity

  pub new_ring-IsRing :
      (capacity : ℕ) (empty : A) → 0 < capacity → IsRing capacity (new_ring capacity empty)
  unfolding new_ring
  new_ring-IsRing capacity empty h = record {
    size = ground (arith, length-replicate capacity empty);
    in_range = h;
  }

  pub push-IsRing :
      (capacity : ℕ) (v : A) (r : Ring A) → IsRing capacity r → IsRing capacity (push v r)
  unfolding push
  push-IsRing capacity v r h = ground (arith, length-set r.buf r.next v)

  length-each :
      (capacity : ℕ) (r : Ring A)
      → IsRing capacity r
      → length (each r) ≡ (if r.full then capacity else r.next)
  unfolding each
  length-each capacity r h = ground (
    arith,
    length-append (drop r.next r.buf) (take r.next r.buf),
    length-take r.next r.buf,
    length-drop r.next r.buf,
  )

  module _ (capacity : ℕ) (v : A) (r : Ring A) (h : IsRing capacity r) where
    abbrev written : List A
    written = set r.buf r.next v

    -- A full ring loses its oldest element.
    full_lemma : r.full ≡ true → each (push v r) ≡ drop 1 (each r) ++ v ∷ []
    unfolding each push
    full_lemma full = elim (Bool-cases (eqb (r.next + 1) (length written))) [
      | inl wraps ↦ ground (
        arith,
        length-set r.buf r.next v,
        set_last r.buf r.next v,
        drop-drop r.next r.buf,
        drop_all (suc r.next) r.buf,
        drop-append 1 (drop r.next r.buf) (take r.next r.buf),
        length-drop r.next r.buf,
        append-nil written,
      )
      | inr moves ↦ ground (
        arith,
        take-set r.buf r.next v,
        drop-set r.buf r.next v,
        drop-drop r.next r.buf,
        drop-append 1 (drop r.next r.buf) (take r.next r.buf),
        length-drop r.next r.buf,
        append_assoc (drop (suc r.next) r.buf) (take r.next r.buf) (v ∷ []),
      )
    ]

    filling : r.full ≡ false → each (push v r) ≡ each r ++ v ∷ []
    unfolding each push
    filling free = elim (Bool-cases (eqb (r.next + 1) (length written))) [
      | inl wraps ↦
          ground (arith, length-set r.buf r.next v, set_last r.buf r.next v, append-nil written)
      | inr moves ↦ ground (arith, take-set r.buf r.next v)
    ]

    each-push : each (push v r) ≡ offer capacity v (each r)
    unfolding offer
    each-push = ground (arith, length-each capacity r h, full_lemma, filling, h.in_range)

  offer-keep_last :
      (capacity : ℕ) (v : A) (vs : List A)
      → 0 < capacity
      → offer capacity v (keep_last capacity vs) ≡ keep_last capacity (vs ++ v ∷ [])
  unfolding offer keep_last
  offer-keep_last capacity v vs h =
      let n = length vs - capacity in
      elim (Bool-cases (ltb (length vs) capacity)) [
        | inl room ↦
            let none_dropped : n ≡ 0 = ground arith in
            let none_later : length (vs ++ v ∷ []) - capacity ≡ 0 =
              ground (arith, length-append vs (v ∷ [])) in
            rw (none_dropped, none_later) (ground arith)
        | inr packed ↦
            let later : length (vs ++ v ∷ []) - capacity ≡ suc n =
              ground (arith, length-append vs (v ∷ [])) in
            rw later
              (ground (arith, length-drop n vs, drop-drop n vs, drop-append (suc n) vs (v ∷ [])))
      ]

  each-push_all_from :
      (capacity : ℕ) (vs seen : List A) (r : Ring A)
      → 0 < capacity
      → IsRing capacity r
      → each r ≡ keep_last capacity seen
      → each (push_all vs r) ≡ keep_last capacity (seen ++ vs)
  unfolding push_all
  each-push_all_from capacity [] seen r pos h e =
      e ∙ ap (keep_last capacity) (sym (append-nil seen))
  each-push_all_from capacity (v ∷ vs) seen r pos h e =
      each-push_all_from capacity vs (seen ++ v ∷ []) (push v r) pos (push-IsRing capacity v r h)
        (each-push capacity v r h ∙ ap (offer capacity v) e ∙ offer-keep_last capacity v seen pos)
      ∙ ap (keep_last capacity) (append_assoc seen (v ∷ []) vs)

  new_ring-each : (capacity : ℕ) (empty : A) → each (new_ring capacity empty) ≡ []
  unfolding each new_ring
  new_ring-each capacity empty = refl

  -- After any pushes into a new ring of a positive capacity, `each` visits exactly the last
  -- `capacity` values, oldest first.
  pub each-push_all :
      (capacity : ℕ) (empty : A) (vs : List A)
      → 0 < capacity
      → each (push_all vs (new_ring capacity empty)) ≡ keep_last capacity vs
  unfolding keep_last
  each-push_all capacity empty vs h =
      each-push_all_from capacity vs [] (new_ring capacity empty) h
        (new_ring-IsRing capacity empty h)
        (new_ring-each capacity empty ∙ sym (drop_nil (0 - capacity)))

  push_all-IsRing :
      (capacity : ℕ) (vs : List A) (r : Ring A)
      → IsRing capacity r
      → IsRing capacity (push_all vs r)
  unfolding push_all
  push_all-IsRing capacity [] r h = h
  push_all-IsRing capacity (v ∷ vs) r h =
      push_all-IsRing capacity vs (push v r) (push-IsRing capacity v r h)

  -- After any pushes into a new ring of a positive capacity, one more is what `last` returns.
  pub last-push :
      (capacity : ℕ) (empty v : A) (vs : List A)
      → 0 < capacity
      → last (push v (push_all vs (new_ring capacity empty))) ≡ some v
  unfolding last push
  last-push capacity empty v vs h =
      let r = push_all vs (new_ring capacity empty) in
      let ring =
        push_all-IsRing capacity vs (new_ring capacity empty) (new_ring-IsRing capacity empty h) in
      ground (
        arith,
        get_elem?-set_self r.buf r.next v,
        length-set r.buf r.next v,
        ring.size,
        ring.in_range,
      )
