-- ===== src/Scheduling/ReduceTargets.antt =====
-- pkg/scheduling/reducetarget.go: targets that a node stays below are lowered to a set point.
pub mod Setpoint
pub mod Lowering
use target_exporter.Prelude.{
  Bool, true, false, String, List, [], ◌∷◌, ◌&&◌, Dict, ◌==◌, if◌then◌else◌,
}
use target_exporter.Float.{Float64}
use target_exporter.Outcome.{Outcome, ok, err, panic, Action}
use target_exporter.World.{Env, St}
use target_exporter.Promclient.{NodeInstantCpuUsage, get_avg_cpu_usages}
use target_exporter.Scheduling.{Target, set_target, get_target}

module _ {F : Type 0} ⦃f : Float64 F⦄ where
  unfoldable pub get_lower_setpoint : List F → F → F
  get_lower_setpoint [] current = current
  get_lower_setpoint (setpoint ∷ rest) current =
      let lower = get_lower_setpoint rest current in
      if f.lt setpoint current then setpoint else lower

  -- The range over the averages, for one node.
  unfoldable pub reduce_node : List F → String → List (NodeInstantCpuUsage F) → Target F → Target F
  reduce_node setpoints name [] t = t
  reduce_node setpoints name (avg ∷ rest) t = reduce_node setpoints name rest (
      if (avg.node_name == name) && f.lt avg.usage (get_target t)
      then set_target (get_lower_setpoint setpoints (get_target t)) t
      else t)

  -- The range over the targets.
  unfoldable pub reduce_targets :
      List F → List (NodeInstantCpuUsage F) → Dict (Target F) → Dict (Target F)
  reduce_targets setpoints averages [] = []
  reduce_targets setpoints averages ((name, t) ∷ m) =
      (name, reduce_node setpoints name averages t) ∷ reduce_targets setpoints averages m

  unfoldable pub reduce_answer :
      {Q : Type 0}
      → List F
      → Outcome (List (NodeInstantCpuUsage F))
      → Action (St (Dict (Target F)) Q) (Unit {0})
  reduce_answer setpoints (ok averages) st =
      (ok tt, record st { own = reduce_targets setpoints averages st.own })
  reduce_answer setpoints (err e) st = (err e, st)
  reduce_answer setpoints panic st = (panic, st)

-- ReduceTargetsStrategy.Reconcile; the pause of a second at its end is left out.
module _ {F Q : Type 0} ⦃f : Float64 F⦄ where
  unfoldable pub reconcile : Env F Q → List F → Action (St (Dict (Target F)) Q) (Unit {0})
  reconcile env setpoints st =
      let (answer, st') = get_avg_cpu_usages env st in reduce_answer setpoints answer st'
