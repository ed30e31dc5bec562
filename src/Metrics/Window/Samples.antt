-- ===== src/Metrics/Window/Samples.antt =====
-- What samples add to an instrument.
use pg_console.Prelude.{ℕ, ◌+◌, ◌<◌, ◌≡◌, refl, sym, ◌≢◌, ◌∙◌, ap, List, [], ◌∷◌, arith, length}
use pg_console.Metrics.Ring.{push}
use pg_console.Metrics.Window.{FloatOps, Sample, Instrument, append_at, append, bucket_start}

module _ {F : Type 0} (fl : FloatOps F) where
  raw-append_at :
      (start ts : ℕ) (value : F) (i : Instrument F)
      → (append_at fl start ts value i).raw ≡ push (record { at = ts; val = value }) i.raw
  unfolding append_at
  raw-append_at start ts value i = ground arith

  pub raw-append :
      (ts : ℕ) (value : F) (every : ℕ) (i : Instrument F)
      → (append fl ts value every i).raw ≡ push (record { at = ts; val = value }) i.raw
  unfolding append
  raw-append ts value every i = raw-append_at (bucket_start fl ts every) ts value i

  -- Readings of one bucket, one after the other.
  unfoldable pub append_many : ℕ → List (Sample F) → Instrument F → Instrument F
  append_many start [] i = i
  append_many start (s ∷ samples) i = append_many start samples (append_at fl start s.at s.val i)

  abbrev pub sum_from : F → List (Sample F) → F
  sum_from acc [] = acc
  sum_from acc (s ∷ samples) = sum_from (fl.add acc s.val) samples

  abbrev Filling : ℕ → Instrument F → Type 0
  Filling start i = (0 < i.pending.count) × (i.pending.start ≡ start)

  append_at-same :
      (start ts : ℕ) (value : F) (i : Instrument F)
      → Filling start i
      → let j = append_at fl start ts value i in
        (j.roll ≡ i.roll)
        × (j.pending.count ≡ i.pending.count + 1)
        × (j.pending.start ≡ start)
        × (j.pending.sum ≡ fl.add i.pending.sum value)
  unfolding append_at
  append_at-same start ts value i h = ground arith

  append_at-first :
      (start ts : ℕ) (value : F) (i : Instrument F)
      → i.pending.count ≡ 0
      → let j = append_at fl start ts value i in
        (j.roll ≡ i.roll)
        × (j.pending.count ≡ 1)
        × (j.pending.start ≡ start)
        × (j.pending.sum ≡ fl.add fl.float_zero value)
  unfolding append_at
  append_at-first start ts value i h = ground arith

  append_at-next :
      (start ts : ℕ) (value : F) (i : Instrument F)
      → 0 < i.pending.count
      → i.pending.start ≢ start
      → let j = append_at fl start ts value i in
        (j.roll ≡ push i.pending i.roll) × (j.pending.count ≡ 1) × (j.pending.start ≡ start)
  unfolding append_at
  append_at-next start ts value i h n = ground arith

  append_many-same :
      (start : ℕ) (samples : List (Sample F)) (i : Instrument F)
      → Filling start i
      → let j = append_many start samples i in
        (j.roll ≡ i.roll)
        × (j.pending.count ≡ i.pending.count + length samples)
        × (j.pending.start ≡ start)
        × (j.pending.sum ≡ sum_from i.pending.sum samples)
  unfolding append_many
  append_many-same start [] i h = (refl, omega arith, h.1, refl)
  append_many-same start (s ∷ samples) i h =
      let j = append_at fl start s.at s.val i in
      let (r, c, b, t) = append_at-same start s.at s.val i h in
      let (r', c', b', t') = append_many-same start samples j (omega (arith, c), b) in
      (r' ∙ r, omega (arith, c, c'), b', t' ∙ ap (λ a. sum_from a samples) t)

  -- Where no bucket is being filled, samples that fall into one bucket change no closed bucket; the
  -- bucket counts them and sums them in order. The first sample of another bucket closes it: it is
  -- pushed once, as it stood, and the new bucket counts one.
  pub rollup_lem :
      (start later ts : ℕ) (value : F) (s : Sample F) (samples : List (Sample F)) (i : Instrument F)
      → i.pending.count ≡ 0
      → start ≢ later
      → let j = append_many start (s ∷ samples) i in
        let k = append_at fl later ts value j in
        (j.roll ≡ i.roll)
        × (j.pending.count ≡ 1 + length samples)
        × (j.pending.sum ≡ sum_from fl.float_zero (s ∷ samples))
        × (k.roll ≡ push j.pending i.roll)
        × (k.pending.count ≡ 1)
        × (k.pending.start ≡ later)
  unfolding append_many
  rollup_lem start later ts value s samples i empty n =
      let one = append_at fl start s.at s.val i in
      let (r, c, b, t) = append_at-first start s.at s.val i empty in
      let (r', c', b', t') = append_many-same start samples one (omega (arith, c), b) in
      let j = append_many start samples one in
      let (r'', c'', b'') =
        append_at-next later ts value j (omega (arith, c, c')) (λ e. n (sym b' ∙ e)) in
      (
        r' ∙ r,
        omega (arith, c, c'),
        t' ∙ ap (λ a. sum_from a samples) t,
        r'' ∙ ap (push j.pending) (r' ∙ r),
        c'',
        b'',
      )
