-- ===== src/Scheduling/ReduceTargets/Lowering.antt =====
-- What a round does to the targets.
use target_exporter.Prelude.{
  ◌≡◌, refl, ◌⊎◌, inl, Bool, true, false, ◌&&◌, if◌then◌else◌, subst, String, List, [], ◌∷◌, Dict,
  arith, ◌==◌,
}
use target_exporter.Float.{Float64, IsOrdered}
use target_exporter.Outcome.{Outcome, ok, err, panic}
use target_exporter.World.{Env, St}
use target_exporter.Promclient.{NodeInstantCpuUsage, get_avg_cpu_usages}
use target_exporter.Promclient.Samples.{get_avg_cpu_usages-own}
use target_exporter.Scheduling.{Target, set_target}
use target_exporter.Scheduling.ReduceTargets.{
  get_lower_setpoint, reduce_node, reduce_targets, reduce_answer, reconcile,
}
use target_exporter.Scheduling.ReduceTargets.Setpoint.{get_lower_setpoint_cases}

module _ {F : Type 0} ⦃f : Float64 F⦄ where
  -- Nothing changes, or the gauge exports the target, which is as before or lower.
  abbrev pub IsLowered : Target F → Target F → Type 0
  IsLowered t u =
      (u ≡ t) ⊎ (u.gauge ≡ u.target) × ((u.target ≡ t.target) ⊎ (f.lt u.target t.target ≡ true))

  -- Node by node, in the same order.
  abbrev pub Lowers : Dict (Target F) → Dict (Target F) → Type 0
  Lowers [] [] = Unit
  Lowers ((k, t) ∷ m) ((j, u) ∷ n) = (j ≡ k) × IsLowered t u × Lowers m n
  Lowers _ _ = ⊥

  -- No average is below a target of its node.
  abbrev pub IsBusy : String → Target F → List (NodeInstantCpuUsage F) → Type 0
  IsBusy name t [] = Unit
  IsBusy name t (avg ∷ rest) =
      (((avg.node_name == name) ≡ false) ⊎ (f.lt avg.usage t.target ≡ false)) × IsBusy name t rest

  module _ (laws : IsOrdered F) where
    set_target-IsLowered :
        (setpoints : List F) (start t : Target F)
        → IsLowered start t
        → IsLowered start (set_target (get_lower_setpoint setpoints t.target) t)
    unfolding set_target
    set_target-IsLowered setpoints start t h = ground (
      arith,
      get_lower_setpoint_cases setpoints t.target,
      laws.lt_trans (get_lower_setpoint setpoints t.target) t.target start.target,
    )

    if-IsLowered :
        (b : Bool) (start t u : Target F)
        → IsLowered start t
        → IsLowered start u
        → IsLowered start (if b then t else u)
    if-IsLowered true start t u h k = h
    if-IsLowered false start t u h k = k

    reduce_node-IsLowered :
        (setpoints : List F) (name : String) (averages : List (NodeInstantCpuUsage F))
        (start t : Target F)
        → IsLowered start t
        → IsLowered start (reduce_node setpoints name averages t)
    unfolding reduce_node
    reduce_node-IsLowered setpoints name [] start t h = h
    reduce_node-IsLowered setpoints name (avg ∷ rest) start t h =
        reduce_node-IsLowered setpoints name rest start _ (
          if-IsLowered ((avg.node_name == name) && f.lt avg.usage t.target) start _ t
            (set_target-IsLowered setpoints start t h) h)

    reduce_targets-Lowers :
        (setpoints : List F) (averages : List (NodeInstantCpuUsage F)) (m : Dict (Target F))
        → Lowers m (reduce_targets setpoints averages m)
    unfolding reduce_targets
    reduce_targets-Lowers setpoints averages [] = tt
    reduce_targets-Lowers setpoints averages ((k, t) ∷ m) = (
      refl,
      reduce_node-IsLowered setpoints k averages t t (inl refl),
      reduce_targets-Lowers setpoints averages m,
    )

    Lowers-refl : (m : Dict (Target F)) → Lowers m m
    Lowers-refl [] = tt
    Lowers-refl ((k, t) ∷ m) = (refl, inl refl, Lowers-refl m)

    reduce_answer-Lowers :
        {Q : Type 0} (setpoints : List F) (answer : Outcome (List (NodeInstantCpuUsage F)))
        (st : St (Dict (Target F)) Q)
        → Lowers st.own (reduce_answer setpoints answer st).1.own
    unfolding reduce_answer
    reduce_answer-Lowers setpoints (ok averages) st =
        reduce_targets-Lowers setpoints averages st.own
    reduce_answer-Lowers setpoints (err e) st = Lowers-refl st.own
    reduce_answer-Lowers setpoints panic st = Lowers-refl st.own

    -- A round never raises a target and adds or drops no node, also when the query fails: node by
    -- node, in the same order, the entry is unchanged, or the gauge exports the target and the target
    -- is the old one or lies below it.
    pub reconcile-Lowers :
        {Q : Type 0} (env : Env F Q) (setpoints : List F) (st : St (Dict (Target F)) Q)
        → Lowers st.own (reconcile env setpoints st).1.own
    unfolding reconcile
    reconcile-Lowers env setpoints st =
        subst (λ m. Lowers m (reconcile env setpoints st).1.own) (get_avg_cpu_usages-own env st)
          (reduce_answer-Lowers setpoints (get_avg_cpu_usages env st).0
            (get_avg_cpu_usages env st).1)

  -- A node that no average of its own shows below its target keeps its target and gauge.
  pub reduce_node-busy :
      (setpoints : List F) (name : String) (averages : List (NodeInstantCpuUsage F)) (t : Target F)
      → IsBusy name t averages
      → reduce_node setpoints name averages t ≡ t
  unfolding reduce_node
  reduce_node-busy setpoints name [] t h = refl
  reduce_node-busy setpoints name (avg ∷ rest) t h =
      ground (arith, reduce_node-busy setpoints name rest t h.1)
