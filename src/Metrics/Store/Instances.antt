-- ===== src/Metrics/Store/Instances.antt =====
-- The number of tracked instances.
use pg_console.Prelude.{ℕ, ◌≤◌, ◌<◌, ◌≡◌, some, List, [], ◌∷◌, String, length}
use pg_console.Prelude.Eq.{string_eq}
use pg_console.Prelude.Dict.{Dict, lookup}
use pg_console.Prelude.Dict.Sums.{Distinct}
use pg_console.Metrics.Store.{InstanceSeries, Store, observe}
use pg_console.Metrics.Window.{FloatOps}

-- One call of `Observe`: the instance, the time, the values and the instants.
pub record Observation (F : Type 0) : Type 0 where
  pub instance_name : String
  pub ts : ℕ
  pub values : Dict String F
  pub instants : Dict String F

module _ {F : Type 0} where
  abbrev Has : Dict String (InstanceSeries F) → String → Type 0
  Has m name = (inst : InstanceSeries F) × (lookup name m ≡ some inst)

  pub record IsCapped (s : Store F) : Type 0 where
    pub distinct : Distinct s.instances
    pub capped : length s.instances ≤ s.limits.max_instances
    pub positive : 0 < s.limits.max_instances

module _ {F : Type 0} (fl : FloatOps F) where
  unfoldable pub observe_all : List (Observation F) → Store F → Store F
  observe_all [] s = s
  observe_all (o ∷ os) s = observe_all os (observe fl o.instance_name o.ts o.values o.instants s)
