-- ===== src/Infrastructure/Exporter.antt =====
-- pkg/infrastructure/exporter.go: StartMetrics, and the two maps that the parts of the program share
-- while it runs. A method that changes one of the maps is a step; the steps of the parts follow each
-- other in any order, each as a whole.
pub mod Kept
pub mod KeptTargets
pub mod KeptFlags
pub mod Runs
pub mod Started
use target_exporter.Prelude.{Bool, true, false, List, [], ◌∷◌, ◌++◌, Dict, insert, ◌||◌}
use target_exporter.Float.{Float64, num}
use target_exporter.Outcome.{Outcome}
use target_exporter.World.{Event, Log, Env}
use target_exporter.Scheduling.{Target, Schedulable}
use target_exporter.Scheduling.SchedulableStrategy
use target_exporter.Scheduling.SchedulableStrategy.{mark_all}
use target_exporter.Scheduling.ReduceTargets
use target_exporter.Infrastructure.TargetHandlers.{post_targets_request}

-- The maps of the exporter, which the orchestrator and the strategies hold too, and the calls that
-- have left the process.
pub record TargetExporter (F Q : Type 0) : Type 0 where
  pub targets : Dict (Target F)
  pub schedulable : Dict (Schedulable F)
  pub log : Log Q

abbrev pub new_target_exporter : {F Q : Type 0} → TargetExporter F Q
new_target_exporter = record { targets = []; schedulable = []; log = [] }

-- The range over the configured targets that creates their gauges.
unfoldable pub load_targets : {F : Type 0} → Dict F → Dict (Target F) → Dict (Target F)
load_targets [] m = m
load_targets ((node_name, target) ∷ rest) m =
    load_targets rest (insert node_name (record { target = target; gauge = target }) m)

module _ {F : Type 0} ⦃f : Float64 F⦄ where
  -- The range that creates the gauges of the flags.
  unfoldable pub export_schedulable : Dict F → Dict (Schedulable F) → Dict (Schedulable F)
  export_schedulable [] m = m
  export_schedulable ((node_name, target) ∷ rest) m =
      export_schedulable rest (insert node_name (record { schedulable = false; gauge = num 0 }) m)

  -- StartMetrics; the constant gauges and the metrics server are left out.
  unfoldable pub start_metrics : {Q : Type 0} → Dict F → TargetExporter F Q → TargetExporter F Q
  start_metrics targets t = record t {
    targets = load_targets targets t.targets;
    schedulable = export_schedulable targets t.schedulable;
  }

module _ {F Q : Type 0} where
  unfoldable pub targets_posted : Outcome (Dict F) → TargetExporter F Q → TargetExporter F Q
  targets_posted request t = record t { targets = (post_targets_request request t.targets).1 }

module _ {F Q : Type 0} ⦃f : Float64 F⦄ where
  unfoldable pub schedulable_stopped : TargetExporter F Q → TargetExporter F Q
  schedulable_stopped t = record t { schedulable = mark_all t.schedulable }

  unfoldable pub round_of_schedulable : Env F Q → TargetExporter F Q → TargetExporter F Q
  round_of_schedulable env t =
      let after =
        (SchedulableStrategy.reconcile env (record { own = t.schedulable; log = t.log })).1 in
      record t { schedulable = after.own; log = after.log }

  unfoldable pub round_of_reduce_targets :
      Env F Q → List F → TargetExporter F Q → TargetExporter F Q
  round_of_reduce_targets env setpoints t =
      let after =
        (ReduceTargets.reconcile env setpoints (record { own = t.targets; log = t.log })).1 in
      record t { targets = after.own; log = after.log }

module _ {F Q : Type 0} ⦃f : Float64 F⦄ (env : Env F Q) (setpoints : List F) where
  -- What changes the maps. The Boolean says whether the schedulable strategy has been stopped.
  pub data Step : Bool → TargetExporter F Q → TargetExporter F Q → Type 0 where
    post :
        (request : Outcome (Dict F)) (t : TargetExporter F Q)
        → Step false t (targets_posted request t)
    reduce : (t : TargetExporter F Q) → Step false t (round_of_reduce_targets env setpoints t)
    schedule : (t : TargetExporter F Q) → Step false t (round_of_schedulable env t)
    stop : (t : TargetExporter F Q) → Step true t (schedulable_stopped t)
    -- A call of another part, after which the services may answer otherwise.
    other :
        (e : Event Q) (t : TargetExporter F Q) → Step false t (record t { log = t.log ++ (e ∷ []) })

  -- The states that a run from the configured targets reaches.
  pub data Run (targets : Dict F) : Bool → TargetExporter F Q → Type 0 where
    started : Run targets false (start_metrics targets new_target_exporter)
    then :
        {b c : Bool} {t u : TargetExporter F Q}
        → Run targets b t
        → Step c t u
        → Run targets (b || c) u
