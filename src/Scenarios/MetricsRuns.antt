-- ===== src/Scenarios/MetricsRuns.antt =====
-- internal/metrics/store.go on small windows, with the naturals for float64.
use pg_console.Prelude.{
  ℕ, ◌+◌, ◌-◌, ◌/◌, ◌*◌, ◌≡◌, ◌↔◌, ◌⊎◌, refl, false, List, [], ◌∷◌, String, ltb, length, arith,
}
use pg_console.Metrics.Ring.{new_ring, push, push_all, each}
use pg_console.Metrics.Ring.Queue.{keep_last, each-push_all}
use pg_console.Metrics.Store.{with_gap_breaks}
use pg_console.Metrics.Window.{
  new_instrument, FloatOps, Catalog, Limits, counter, gauge, Sample, Instrument, record_counter,
  append_at, append, bucket_start, close_bucket, widen, fill,
}
use pg_console.Metrics.Store.Gaps.{Ascending, Occurs, Break, with_gap_breaks_lem}
use pg_console.Metrics.Window.Samples.{append_many, sum_from, rollup_lem}
use pg_console.Metrics.Window.Rates.{
  rates, record_readings, append_all, with_base, newest_of, record_readings-rates,
}
use pg_console.Metrics.Store.Instances.{Observation}

abbrev naturals : FloatOps ℕ
naturals = record {
  float_zero = 0;
  add = λ a b. a + b;
  sub = λ a b. a - b;
  div = λ a b. a / b;
  lt = ltb;
  of_int = λ n. n;
}

abbrev readings : List ℕ
readings = 10 ∷ 20 ∷ 30 ∷ 40 ∷ 50 ∷ []

kept_readings : each (push_all readings (new_ring 3 0)) ≡ (30 ∷ 40 ∷ 50 ∷ [])
unfolding each push_all new_ring push
kept_readings = refl

each-push_all_example : each (push_all readings (new_ring 3 0)) ≡ keep_last 3 readings
each-push_all_example = each-push_all 3 0 readings (omega arith)

with_gap_breaks_lem_example :
    Ascending (with_gap_breaks 10 (100 ∷ 110 ∷ 150 ∷ []))
    × (Occurs 120 (with_gap_breaks 10 (100 ∷ 110 ∷ 150 ∷ []))
        ↔ (Occurs 120 (100 ∷ 110 ∷ 150 ∷ []) ⊎ Break 10 100 (110 ∷ 150 ∷ []) 120))
with_gap_breaks_lem_example =
    with_gap_breaks_lem 10 100 120 (110 ∷ 150 ∷ []) (omega arith) (omega arith, (omega arith, tt))

abbrev limits : Limits
limits = record {
  interval = 10_000_000_000;
  raw_window = 60_000_000_000;
  retention = 3_600_000_000_000;
  rollup_every = 300_000_000_000;
  max_instances = 2;
}

abbrev empty_window : Instrument ℕ
empty_window = record {
  raw = record {
    buf = record { at = 0; val = 0 } ∷ record { at = 0; val = 0 } ∷ [];
    next = 0;
    full = false;
  };
  roll = record {
    buf = record { start = 0; min = 0; max = 0; sum = 0; count = 0 } ∷ [];
    next = 0;
    full = false;
  };
  pending = record { start = 0; min = 0; max = 0; sum = 0; count = 0 };
  prev = 500;
  prev_at = 100;
}

-- 300 more after 10 seconds is a rate of 30.
counted_rate :
    each (record_counter naturals 110 800 300_000_000_000 empty_window).raw
    ≡ (record { at = 110; val = 30 } ∷ [])
unfolding record_counter each push append bucket_start append_at close_bucket widen fill
counted_rate = refl

-- The counter starts again before its third reading.
abbrev counts : List (Sample ℕ)
counts =
    record { at = 110; val = 800 }
    ∷ record { at = 120; val = 40 }
    ∷ record { at = 130; val = 90 }
    ∷ []

abbrev first_count : Sample ℕ
first_count = record { at = 100; val = 500 }

counted_rates :
    rates naturals (first_count ∷ counts)
    ≡ (record { at = 110; val = 30 } ∷ record { at = 130; val = 5 } ∷ [])
unfolding rates
counted_rates = refl

record_readings-rates_example :
    (record_readings naturals 300_000_000_000
        (first_count ∷ counts)
        (new_instrument naturals limits)
      ≡ with_base naturals (newest_of naturals first_count counts) (
          append_all naturals 300_000_000_000
            (rates naturals (first_count ∷ counts))
            (new_instrument naturals limits)))
    × (each
          (record_readings naturals 300_000_000_000
            (first_count ∷ counts)
            (new_instrument naturals limits)).raw
        ≡ keep_last (limits.raw_window / limits.interval) (rates naturals (first_count ∷ counts)))
record_readings-rates_example =
    record_readings-rates naturals limits 300_000_000_000 first_count counts
      (omega arith, (omega arith, (omega arith, (omega arith, tt)))) (omega arith)

abbrev first_sample : Sample ℕ
first_sample = record { at = 300; val = 4 }

abbrev more_samples : List (Sample ℕ)
more_samples = record { at = 310; val = 6 } ∷ []

rollup_lem_example :
    let j = append_many naturals 300 (first_sample ∷ more_samples) empty_window in
    let k = append_at naturals 600 605 9 j in
    (j.roll ≡ empty_window.roll)
    × (j.pending.count ≡ 1 + length more_samples)
    × (j.pending.sum ≡ sum_from naturals 0 (first_sample ∷ more_samples))
    × (k.roll ≡ push j.pending empty_window.roll)
    × (k.pending.count ≡ 1)
    × (k.pending.start ≡ 600)
rollup_lem_example =
    rollup_lem naturals 300 600 605 9 first_sample more_samples empty_window refl (omega arith)

abbrev scrape : String → ℕ → Observation ℕ
scrape name ts = record {
  instance_name = name;
  ts = ts;
  values = ("wal_bytes", ts * 30) ∷ ("connections", 7) ∷ [];
  instants = [];
}

abbrev catalog : Catalog
catalog = record {
  series =
      record { key = "wal_bytes"; kind = counter }
      ∷ record { key = "connections"; kind = gauge }
      ∷ [];
  instants = [];
}

abbrev scrapes : List (Observation ℕ)
scrapes = scrape "db-0" 100 ∷ scrape "db-1" 110 ∷ scrape "db-0" 120 ∷ scrape "db-2" 130 ∷ []
