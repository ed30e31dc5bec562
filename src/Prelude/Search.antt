-- ===== src/Prelude/Search.antt =====
-- sort.Search finds the least index at which a monotone test holds.
use pg_console.Prelude.{
  ℕ, zero, suc, ◌+◌, ◌/◌, ◌≤◌, ◌<◌, ◌≡◌, Bool, true, false, arith, ltb, inl, inr, Bool-cases,
}
use pg_console.Prelude.Sort.{search_loop, sort_search}

pub record IsLeast (n : ℕ) (f : ℕ → Bool) (r : ℕ) : Type 0 where
  pub within : r ≤ n
  pub below : (k : ℕ) → k < r → f k ≡ false
  pub above : (k : ℕ) → r ≤ k → k < n → f k ≡ true

abbrev pub Monotone : ℕ → (ℕ → Bool) → Type 0
Monotone n f = (i j : ℕ) → i ≤ j → j < n → f i ≡ true → f j ≡ true

module _ (n : ℕ) (f : ℕ → Bool) (monotone : Monotone n f) where
  below_of_false : (h : ℕ) → h < n → f h ≡ false → (k : ℕ) → k < suc h → f k ≡ false
  below_of_false h b e k l = elim (Bool-cases (f k)) [
    | inl t ↦ absurd (ground (arith, monotone k h (omega arith) b t))
    | inr g ↦ g
  ]

  search_loop-IsLeast :
      (fuel i j : ℕ)
      → i ≤ j
      → j ≤ n
      → j ≤ i + fuel
      → ((k : ℕ) → k < i → f k ≡ false)
      → ((k : ℕ) → j ≤ k → k < n → f k ≡ true)
      → IsLeast n f (search_loop fuel i j f)
  unfolding search_loop
  search_loop-IsLeast zero i j o b enough below above = record {
    within = omega arith;
    below = below;
    above = λ k l m. above k (omega arith) m;
  }
  search_loop-IsLeast (suc fuel) i j o b enough below above = elim (Bool-cases (ltb i j)) [
    | inr done ↦
        rw done (record {
          within = omega arith;
          below = below;
          above = λ k l m. above k (ground arith) m;
        })
    | inl more ↦
        let lt : i < j = ground arith in
        elim (Bool-cases (f ((i + j) / 2))) [
          | inl t ↦
              rw (more, t)
                (search_loop-IsLeast fuel i ((i + j) / 2) (omega arith) (omega arith) (omega arith)
                  below (λ k l m. monotone ((i + j) / 2) k l m t))
          | inr e ↦
              rw (more, e)
                (search_loop-IsLeast fuel ((i + j) / 2 + 1) j (omega arith) b (omega arith)
                  (λ k l. below_of_false ((i + j) / 2) (omega arith) e k (omega arith)) above)
        ]
  ]

  pub sort_search-IsLeast : IsLeast n f (sort_search n f)
  unfolding sort_search
  sort_search-IsLeast =
      search_loop-IsLeast n 0 n (omega arith) (omega arith) (omega arith)
        (λ k l. absurd (omega arith)) (λ k l m. absurd (omega arith))
