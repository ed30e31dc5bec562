-- ===== src/Metrics/Window/Rates.antt =====
-- What the readings of a counter leave in its windows.
use pg_console.Prelude.{
  ℕ, ◌-◌, ◌/◌, ◌<◌, ◌≡◌, refl, sym, ap, ◌∙◌, true, false, not, ◌&&◌, ◌||◌, List, [], ◌∷◌, ◌++◌,
  arith, ltb, leb, eqb, if◌then◌else◌, inl, inr, Bool-cases,
}
use pg_console.Metrics.Ring.{each, push_all}
use pg_console.Metrics.Ring.Queue.{keep_last, each-push_all}
use pg_console.Metrics.Window.{
  FloatOps, Limits, Sample, Instrument, append, append_at, close_bucket, record_counter,
  new_instrument, zero_sample, bucket_start,
}
use pg_console.Metrics.Window.Samples.{raw-append}

module _ {F : Type 0} (fl : FloatOps F) where
  -- The rate between two readings that follow each other: none where time did not move on or the
  -- counter went back.
  abbrev pub rate_between : Sample F → Sample F → List (Sample F)
  rate_between a b =
      if ltb a.at b.at && not (fl.lt b.val a.val)
      then record { at = b.at; val = fl.div (fl.sub b.val a.val) (fl.of_int (b.at - a.at)) } ∷ []
      else []

  abbrev pub rates_after : Sample F → List (Sample F) → List (Sample F)
  rates_after a [] = []
  rates_after a (b ∷ readings) = rate_between a b ++ rates_after b readings

  -- The rates between the neighbours of a list of readings.
  unfoldable pub rates : List (Sample F) → List (Sample F)
  rates [] = []
  rates (a ∷ readings) = rates_after a readings

  unfoldable pub record_readings : ℕ → List (Sample F) → Instrument F → Instrument F
  record_readings every [] i = i
  record_readings every (b ∷ readings) i =
      record_readings every readings (record_counter fl b.at b.val every i)

  unfoldable pub append_all : ℕ → List (Sample F) → Instrument F → Instrument F
  append_all every [] i = i
  append_all every (s ∷ samples) i = append_all every samples (append fl s.at s.val every i)

  abbrev pub AllPositive : List (Sample F) → Type 0
  AllPositive [] = Unit
  AllPositive (s ∷ samples) = (0 < s.at) × AllPositive samples

  abbrev pub with_base : Sample F → Instrument F → Instrument F
  with_base a i = record i { prev = a.val; prev_at = a.at }

  append-with_base :
      (ts : ℕ) (value : F) (every : ℕ) (a : Sample F) (i : Instrument F)
      → append fl ts value every (with_base a i) ≡ with_base a (append fl ts value every i)
  unfolding append append_at close_bucket
  append-with_base ts value every a i =
      elim (Bool-cases
        (ltb 0 i.pending.count && not (eqb i.pending.start (bucket_start fl ts every)))) [
          | inl closes ↦ rw closes refl
          | inr stays ↦ rw stays refl
        ]

  append_all-append :
      (every : ℕ) (xs ys : List (Sample F)) (i : Instrument F)
      → append_all every (xs ++ ys) i ≡ append_all every ys (append_all every xs i)
  unfolding append_all
  append_all-append every [] ys i = refl
  append_all-append every (x ∷ xs) ys i =
      append_all-append every xs ys (append fl x.at x.val every i)

  record_counter-next :
      (every : ℕ) (a b : Sample F) (i : Instrument F)
      → 0 < a.at
      → record_counter fl b.at b.val every (with_base a i)
        ≡ with_base b (append_all every (rate_between a b) i)
  unfolding record_counter append_all
  record_counter-next every a b i late =
      elim (Bool-cases (ltb a.at b.at && not (fl.lt b.val a.val))) [
        | inl moved ↦
            let rates_it : (eqb a.at 0 || leb b.at a.at || fl.lt b.val a.val) ≡ false =
              ground (arith, moved, late) in
            rw (rates_it, record_counter, moved) (append-with_base b.at _ every b i)
        | inr idle ↦
            let skips : (eqb a.at 0 || leb b.at a.at || fl.lt b.val a.val) ≡ true =
              ground (arith, idle) in
            rw (skips, record_counter, idle) refl
      ]

  -- The newest of some readings.
  abbrev pub newest_of : Sample F → List (Sample F) → Sample F
  newest_of a [] = a
  newest_of a (b ∷ readings) = newest_of b readings

  record_readings-after :
      (every : ℕ) (a : Sample F) (readings : List (Sample F)) (i : Instrument F)
      → AllPositive (a ∷ readings)
      → record_readings every readings (with_base a i)
        ≡ with_base (newest_of a readings) (append_all every (rates_after a readings) i)
  unfolding record_readings append_all
  record_readings-after every a [] i late = refl
  record_readings-after every a (b ∷ readings) i (late, later) =
      ap (record_readings every readings) (record_counter-next every a b i late)
      ∙ record_readings-after every b readings (append_all every (rate_between a b) i) later
      ∙ ap (with_base (newest_of b readings))
          (sym (append_all-append every (rate_between a b) (rates_after b readings) i))

  raw-append_all :
      (every : ℕ) (samples : List (Sample F)) (i : Instrument F)
      → (append_all every samples i).raw ≡ push_all samples i.raw
  unfolding append_all push_all
  raw-append_all every [] i = refl
  raw-append_all every (s ∷ samples) i =
      raw-append_all every samples (append fl s.at s.val every i)
      ∙ ap (push_all samples) (raw-append fl s.at s.val every i)

  -- After any readings of a counter at positive times, both windows are what appending the rates
  -- between neighbouring readings makes of new ones: a pair adds one rate where time moved on and the
  -- counter did not go back, and none else. The newest reading is the base of the next rate, and the
  -- raw window holds the last rates that its capacity, where it is positive, allows.
  pub record_readings-rates :
      (l : Limits) (every : ℕ) (a : Sample F) (readings : List (Sample F))
      → AllPositive (a ∷ readings)
      → 0 < l.raw_window / l.interval
      → (record_readings every (a ∷ readings) (new_instrument fl l)
          ≡ with_base
              (newest_of a readings)
              (append_all every (rates (a ∷ readings)) (new_instrument fl l)))
        × (each (record_readings every (a ∷ readings) (new_instrument fl l)).raw
            ≡ keep_last (l.raw_window / l.interval) (rates (a ∷ readings)))
  unfolding record_readings record_counter rates new_instrument
  record_readings-rates l every a readings late room =
      let after = record_readings-after every a readings (new_instrument fl l) late in
      (
        after,
        ap (λ i. each i.raw) after
            ∙ ap each (raw-append_all every (rates_after a readings) (new_instrument fl l))
            ∙ each-push_all (l.raw_window / l.interval) (zero_sample fl) (rates_after a readings)
                room,
      )
