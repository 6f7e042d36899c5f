-- ===== src/Scheduling/SelfDriving/Round.antt =====
-- SelfDrivingStrategy.Reconcile of pkg/scheduling/selfdriving.go. Calls of the logger are left out,
-- but not the panics of their arguments.
use target_exporter.Prelude.{
  not, String, Option, none, some, List, [], ◌∷◌, ◌++◌, Dict, lookup, keep, if◌then◌else◌,
}
use target_exporter.Prelude.Int.{ℤ}
use target_exporter.Float.{Float64, num}
use target_exporter.Outcome.{Outcome, ok, err, panic, Action, ◌>>=◌, ◌>>◌, lift, for_each, modify}
use target_exporter.World.{Quantity, Time, Pod, Env, St, within, observe}
use target_exporter.Promclient.{
  NodeCpuUsage, get_current_cpu_diff, get_cpu_counts, get_avg_instant_usage,
}
use target_exporter.Kubeclient.{
  patch_cpu_limit, get_pods_in_namespace, get_pods_in_namespace_by_node,
  percentage_to_resource_quantity,
}
use target_exporter.Scheduling.{Target}
use target_exporter.Scheduling.SelfDriving.{
  SkipItem, is_node_above_target, is_node_below_target, is_node_in_violation, get_pod_from_name,
  refresh_from, should_skip_pod, cpu_limit_of,
}
use target_exporter.Scheduling.SelfDriving.Delta.{get_violating_pods_delta}

module _ {F Q : Type 0} ⦃f : Float64 F⦄ ⦃q : Quantity Q⦄ where
  -- The new limit: less above the target and more below it, by the sign of the difference.
  unfoldable pub adjusted_limit : F → Q → Q → Q
  adjusted_limit avg limit delta =
      if is_node_above_target avg
      then q.sub limit delta
      else if is_node_below_target avg
      then q.add limit delta
      else limit

-- `getPodFromName(filteredPods, podName).Spec…`: a missing pod is a nil pointer.
abbrev pub pod_or_panic : {Q : Type 0} → Option (Pod Q) → Outcome (Pod Q)
pod_or_panic none = panic
pod_or_panic (some pod) = ok pod

module _ {F Q : Type 0} ⦃f : Float64 F⦄ ⦃q : Quantity Q⦄ (env : Env F Q) where
  abbrev pub Strategy : Type 0 → Type 0
  Strategy A = Action (St (List (SkipItem Q)) Q) A

  unfoldable pub refresh_skip_list : Strategy (Unit {0})
  refresh_skip_list = do
    pods ← get_pods_in_namespace env
    now ← observe env.now
    within (λ items. refresh_from now pods 0 items items)

  unfoldable pub add_pod_to_skip_list : Pod Q → Q → Strategy (Unit {0})
  add_pod_to_skip_list pod limit = do
    now ← observe env.now
    within (
        modify (λ items.
          items ++ (record { pod_name = pod.name; insertion_time = now; cpu_limit = limit } ∷ [])))

  -- An entry of the map of updates.
  unfoldable pub patch_pod : Dict ℤ → String → F → List (Pod Q) → String × F → Strategy (Unit {0})
  patch_pod cpu_counts node avg pods (name, update) st =
      if f.eq update (num 0)
      then (ok tt, st)
      else (do
        pod ← lift (pod_or_panic (get_pod_from_name pods name))
        limit ← lift (cpu_limit_of pod)
        patch_cpu_limit env
            (adjusted_limit avg limit (percentage_to_resource_quantity cpu_counts update node)) name
        add_pod_to_skip_list pod limit)
          st

  -- The pods of the node that are not skipped, and the patches that their updates ask for.
  unfoldable pub patch_pods :
      Dict ℤ → NodeCpuUsage F → Time → List (SkipItem Q) → List (Pod Q) → Strategy (Unit {0})
  patch_pods cpu_counts diff now items pods = do
    let filtered = keep (λ pod. not (should_skip_pod now items pod)) pods
    deltas ← lift (get_violating_pods_delta env cpu_counts diff filtered)
    for_each deltas
        (patch_pod cpu_counts diff.node_name (get_avg_instant_usage diff.usages) filtered)

  -- A node that violates its target. The debug message reads the node's entry in `targets`.
  unfoldable pub adjust_node : Dict (Target F) → Dict ℤ → NodeCpuUsage F → Strategy (Unit {0})
  adjust_node targets cpu_counts diff = do
    lift (elim (lookup diff.node_name targets) [ none ↦ panic | some t ↦ ok tt ])
    refresh_skip_list
    pods ← get_pods_in_namespace_by_node env diff.node_name
    now ← observe env.now
    items ← within (λ (items : List (SkipItem Q)). (ok items, items))
    patch_pods cpu_counts diff now items pods

  unfoldable pub visit_node : Dict (Target F) → Dict ℤ → NodeCpuUsage F → Strategy (Unit {0})
  visit_node targets cpu_counts diff st =
      if is_node_in_violation (get_avg_instant_usage diff.usages)
      then adjust_node targets cpu_counts diff st
      else (ok tt, st)

  -- The error of GetCpuCounts is overwritten, and its map is then nil.
  abbrev pub counts_or_nil : Outcome (Dict ℤ) → Outcome (Dict ℤ)
  counts_or_nil (ok counts) = ok counts
  counts_or_nil (err e) = ok []
  counts_or_nil panic = panic

  unfoldable pub reconcile : Dict (Target F) → Strategy (Unit {0})
  reconcile targets = do
    counts ← (λ st. (counts_or_nil (get_cpu_counts env st).0, (get_cpu_counts env st).1))
    diffs ← get_current_cpu_diff env
    for_each diffs (visit_node targets counts)
