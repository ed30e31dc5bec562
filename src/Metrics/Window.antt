-- ===== src/Metrics/Window.antt =====
-- internal/metrics/store.go: one series of one instance.
--
-- A float64 is an argument, with the operations that the store uses. Times are Unix seconds, and
-- durations nanoseconds; a rollup width below a second, on which the code would divide by zero, is
-- not used. Of a catalog's definitions the store reads the key and the kind.
pub mod Samples
pub mod Rates
use pg_console.Prelude.{
  ℕ, zero, suc, ◌+◌, ◌-◌, ◌*◌, ◌/◌, ◌%◌, Bool, true, false, ◌&&◌, ◌||◌, not, Option, none, some,
  List, [], ◌∷◌, String, ltb, leb, eqb, length, if◌then◌else◌,
}
use pg_console.Prelude.Eq.{string_eq, ◌==◌}
use pg_console.Prelude.Dict.{Dict, lookup, insert, remove}
use pg_console.Metrics.Ring.{Ring, new_ring, push}

pub record FloatOps (F : Type 0) : Type 0 where
  pub float_zero : F
  pub add : F → F → F
  pub sub : F → F → F
  pub div : F → F → F
  pub lt : F → F → Bool
  pub of_int : ℕ → F

pub data Kind : Type 0 where
  gauge counter : Kind

pub record SeriesDef : Type 0 where
  pub key : String
  pub kind : Kind

pub record Catalog : Type 0 where
  pub series : List SeriesDef
  pub instants : List String

pub record Limits : Type 0 where
  pub interval : ℕ
  pub raw_window : ℕ
  pub retention : ℕ
  pub rollup_every : ℕ
  pub max_instances : ℕ

abbrev pub second : ℕ
second = 1_000_000_000

abbrev pub or_default : ℕ → ℕ → ℕ
or_default n d = if leb n 0 then d else n

unfoldable pub with_defaults : Limits → Limits
with_defaults l = record {
  interval = or_default l.interval (10 * second);
  raw_window = or_default l.raw_window (6 * 3600 * second);
  retention = or_default l.retention (7 * 24 * 3600 * second);
  rollup_every = or_default l.rollup_every (5 * 60 * second);
  max_instances = or_default l.max_instances 8;
}

pub record Sample (F : Type 0) : Type 0 where
  pub at : ℕ
  pub val : F

pub record Bucket (F : Type 0) : Type 0 where
  pub start : ℕ
  pub min : F
  pub max : F
  pub sum : F
  pub count : ℕ

-- `pending` is the field `open`, the bucket that is still being filled.
pub record Instrument (F : Type 0) : Type 0 where
  pub raw : Ring (Sample F)
  pub roll : Ring (Bucket F)
  pub pending : Bucket F
  pub prev : F
  pub prev_at : ℕ

module _ {F : Type 0} (fl : FloatOps F) where
  abbrev pub zero_bucket : Bucket F
  zero_bucket = record {
    start = 0;
    min = fl.float_zero;
    max = fl.float_zero;
    sum = fl.float_zero;
    count = 0;
  }

  abbrev pub zero_sample : Sample F
  zero_sample = record { at = 0; val = fl.float_zero }

  unfoldable pub bucket_start : ℕ → ℕ → ℕ
  bucket_start ts rollup_every = ts - ts % (rollup_every / second)

  unfoldable pub close_bucket : ℕ → Instrument F → Instrument F
  close_bucket start i =
      if ltb 0 i.pending.count && not (eqb i.pending.start start)
      then record i { roll = push i.pending i.roll; pending = zero_bucket }
      else i

  unfoldable pub widen : ℕ → F → Bucket F → Bucket F
  widen start value b =
      if eqb b.count 0
      then record zero_bucket { start = start; min = value; max = value }
      else record b {
        min = if fl.lt value b.min then value else b.min;
        max = if fl.lt b.max value then value else b.max;
      }

  unfoldable pub fill : ℕ → F → Bucket F → Bucket F
  unfolding widen
  fill start value b =
      let wide = widen start value b in
      record wide { sum = fl.add wide.sum value; count = wide.count + 1 }

  -- `append`, with the start of the bucket that the time falls into.
  unfoldable pub append_at : ℕ → ℕ → F → Instrument F → Instrument F
  unfolding close_bucket fill
  append_at start ts value i =
      let sampled = record i { raw = push (record { at = ts; val = value }) i.raw } in
      let closed = close_bucket start sampled in
      record closed { pending = fill start value closed.pending }

  unfoldable pub append : ℕ → F → ℕ → Instrument F → Instrument F
  unfolding append_at bucket_start
  append ts value rollup_every i = append_at (bucket_start ts rollup_every) ts value i

  unfoldable pub new_instrument : Limits → Instrument F
  new_instrument l = record {
    raw = new_ring (l.raw_window / l.interval) zero_sample;
    roll = new_ring (l.retention / l.rollup_every) zero_bucket;
    pending = zero_bucket;
    prev = fl.float_zero;
    prev_at = 0;
  }

  -- A counter's reading: the rate since the reading before it, or nothing on first sight and after
  -- a reset.
  unfoldable pub record_counter : ℕ → F → ℕ → Instrument F → Instrument F
  record_counter ts value rollup_every i =
      let seen = record i { prev = value; prev_at = ts } in
      if eqb i.prev_at 0 || leb ts i.prev_at || fl.lt value i.prev
      then seen
      else append ts (fl.div (fl.sub value i.prev) (fl.of_int (ts - i.prev_at))) rollup_every seen

  unfoldable pub record_value : Kind → ℕ → F → ℕ → Instrument F → Instrument F
  unfolding record_counter
  record_value counter ts value rollup_every i = record_counter ts value rollup_every i
  record_value gauge ts value rollup_every i = append ts value rollup_every i
