-- ===== src/Metrics/Store.antt =====
-- internal/metrics/store.go: the windows of each scraped instance.
pub mod Instances
pub mod Gaps
use pg_console.Prelude.{
  ℕ, zero, suc, ◌+◌, ◌-◌, ◌*◌, ◌/◌, ◌%◌, Bool, true, false, ◌&&◌, ◌||◌, not, Option, none, some,
  List, [], ◌∷◌, String, ltb, leb, eqb, length, if◌then◌else◌,
}
use pg_console.Prelude.Eq.{string_eq, ◌==◌}
use pg_console.Prelude.Dict.{Dict, lookup, insert, remove}
use pg_console.Metrics.Ring.{Ring, new_ring, push}
use pg_console.Metrics.Window.{
  Bucket, Catalog, FloatOps, Instrument, Kind, Limits, Sample, SeriesDef, append, append_at,
  bucket_start, close_bucket, counter, fill, gauge, new_instrument, or_default, record_counter,
  record_value, second, widen, with_defaults, zero_bucket, zero_sample,
}

pub record InstanceSeries (F : Type 0) : Type 0 where
  pub by_key : Dict String (Instrument F)
  pub instant : Dict String (Sample F)
  pub last_at : ℕ

pub record Store (F : Type 0) : Type 0 where
  pub catalog : Catalog
  pub limits : Limits
  pub instances : Dict String (InstanceSeries F)

unfoldable pub new_store : {F : Type 0} → Catalog → Limits → Store F
unfolding with_defaults
new_store catalog limits = record {
  catalog = catalog;
  limits = with_defaults limits;
  instances = [];
}

module _ {F : Type 0} where
  -- The loop of `evictForLocked`: the name and the time of the least recently observed so far.
  unfoldable pub oldest_from : String × ℕ → Dict String (InstanceSeries F) → String × ℕ
  oldest_from found [] = found
  oldest_from (oldest, at) ((name, inst) ∷ m) =
      oldest_from
        (if oldest == "" || ltb inst.last_at at then (name, inst.last_at) else (oldest, at)) m

  unfoldable pub evict_for : Store F → Store F
  unfolding oldest_from
  evict_for s =
      if ltb (length s.instances) s.limits.max_instances
      then s
      else record s { instances = remove (oldest_from ("", 0) s.instances).0 s.instances }

module _ {F : Type 0} (fl : FloatOps F) where
  abbrev pub or_instrument : Limits → Option (Instrument F) → Instrument F
  or_instrument l none = new_instrument fl l
  or_instrument l (some i) = i

  unfoldable pub record_series :
      Limits → ℕ → Dict String F → SeriesDef → InstanceSeries F → InstanceSeries F
  record_series l ts values def inst = elim (lookup def.key values) [
    | none ↦ inst
    | some value ↦
        let ins = or_instrument l (lookup def.key inst.by_key) in
        record inst {
          by_key =
              insert def.key (record_value fl def.kind ts value l.rollup_every ins) inst.by_key;
        }
  ]

  unfoldable pub record_all :
      Limits → ℕ → Dict String F → List SeriesDef → InstanceSeries F → InstanceSeries F
  unfolding record_series
  record_all l ts values [] inst = inst
  record_all l ts values (def ∷ defs) inst =
      record_all l ts values defs (record_series l ts values def inst)

  unfoldable pub record_instants :
      ℕ → Dict String F → List String → InstanceSeries F → InstanceSeries F
  record_instants ts instants [] inst = inst
  record_instants ts instants (key ∷ keys) inst =
      record_instants ts instants keys (elim (lookup key instants) [
        | none ↦ inst
        | some value ↦ record inst {
          instant = insert key (record { at = ts; val = value }) inst.instant;
        }
      ])

  abbrev pub empty_series : InstanceSeries F
  empty_series = record { by_key = []; instant = []; last_at = 0 }

  -- The part of `Observe` for an instance that is tracked.
  unfoldable pub observe_tracked :
      String → ℕ → Dict String F → Dict String F → InstanceSeries F → Store F → Store F
  unfolding record_all record_instants
  observe_tracked instance_name ts values instants inst s =
      let stamped = record inst { last_at = ts } in
      let tiles = record_instants ts instants s.catalog.instants stamped in
      record s {
        instances =
            insert instance_name (record_all s.limits ts values s.catalog.series tiles) s.instances;
      }

  unfoldable pub observe : String → ℕ → Dict String F → Dict String F → Store F → Store F
  unfolding evict_for observe_tracked
  observe instance_name ts values instants s = elim (lookup instance_name s.instances) [
    | none ↦ observe_tracked instance_name ts values instants empty_series (evict_for s)
    | some inst ↦ observe_tracked instance_name ts values instants inst s
  ]

-- The step of a tier, in seconds.
pub data Tier : Type 0 where
  tier_raw tier_rollup : Tier

unfoldable pub tier_step : Tier → Limits → ℕ
tier_step tier_raw l = l.interval / second
tier_step tier_rollup l = l.rollup_every / second

-- The loop of `withGapBreaksLocked` after a time, over the ascending times that follow.
unfoldable pub gap_breaks_after : ℕ → ℕ → List ℕ → List ℕ
gap_breaks_after step prev [] = []
gap_breaks_after step prev (at ∷ times) =
    let rest = gap_breaks_after step at times in
    if ltb (step * 3 / 2) (at - prev) then (prev + step) ∷ at ∷ rest else at ∷ rest

unfoldable pub with_gap_breaks : ℕ → List ℕ → List ℕ
unfolding gap_breaks_after
with_gap_breaks step [] = []
with_gap_breaks step (at ∷ times) = at ∷ gap_breaks_after step at times
