-- ===== src/Scheduling.antt =====
-- The scheduling package: targets and schedulable flags with their gauges, as
-- pkg/scheduling/orchestration.go declares them. The strategies are the modules below.
pub mod SchedulableStrategy
pub mod ReduceTargets
pub mod SelfDriving
pub mod Strategy
pub mod Orchestrator
pub mod AutomaticJobSpawn
pub mod ServerOnOff
pub mod Tawa
use target_exporter.Prelude.{Bool, if◌then◌else◌}
use target_exporter.Float.{Float64, num}

-- `gauge` is the value that the Prometheus gauge exports.
pub record Target (F : Type 0) : Type 0 where
  pub target : F
  pub gauge : F

pub record Schedulable (F : Type 0) : Type 0 where
  pub schedulable : Bool
  pub gauge : F

module _ {F : Type 0} where
  unfoldable pub set_target : F → Target F → Target F
  set_target x t = record t { gauge = x; target = x }

  abbrev pub get_target : Target F → F
  get_target t = t.target

module _ {F : Type 0} ⦃f : Float64 F⦄ where
  unfoldable pub set_schedulable : Bool → Schedulable F → Schedulable F
  set_schedulable b s = record s { gauge = if b then num 1 else num 0; schedulable = b }
