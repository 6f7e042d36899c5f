-- ===== src/Scheduling/SelfDriving.antt =====
-- pkg/scheduling/selfdriving.go: the CPU limits of pods on nodes that are off their target are
-- patched, and a patched pod is left alone for a while. This module has the thresholds and the skip
-- list; `Delta` has getViolatingPodsDelta and `Round` has Reconcile.
pub mod SkipList
pub mod Delta
pub mod Round
pub mod Relax
pub mod Throttle
pub mod Patches
pub mod Skipping
pub mod Once
pub mod Remembered
pub mod Apart
pub mod Adjusting
pub mod Entries
pub mod Partial
pub mod Split
use text.Mathlib.Text.{find?}
use target_exporter.Prelude.{
  ℕ, suc, ◌+◌, ◌-◌, Bool, true, false, not, String, Option, none, some, List, [], ◌∷◌, ◌++◌, ◌&&◌,
  ◌||◌, Dict, lookup, insert, keep, take, drop, length, ltb, ◌==◌, if◌then◌else◌,
}
use target_exporter.Prelude.Int.{ℤ}
use target_exporter.Float.{Float64, num, minus, gt, ge}
use target_exporter.Outcome.{
  Outcome, ok, err, panic, Action, ◌>>=◌, ◌>>◌, pure, lift, for_each, crash, bind_outcome,
}
use target_exporter.World.{
  Quantity, Time, Duration, Phase, Condition, Pod, Env, St, within, observe,
}
use target_exporter.Promclient.{
  NodeCpuUsage, get_current_cpu_diff, get_cpu_counts, get_avg_instant_usage,
}
use target_exporter.Kubeclient.{
  patch_cpu_limit, get_pods_in_namespace, get_pods_in_namespace_by_node,
  percentage_to_resource_quantity, resource_quantity_to_percentage,
}
use target_exporter.Kubeclient.Builder.{get_min_cpu}
use target_exporter.Scheduling.{Target}

abbrev adjustment_slack : ℕ
adjustment_slack = 2

-- TimeSinceInsertionThreshold and TimeSinceSchedulingThreshold: a minute, in nanoseconds.
abbrev pub one_minute : Duration
one_minute = 60_000_000_000

pub record SkipItem (Q : Type 0) : Type 0 where
  pub pod_name : String
  pub insertion_time : Time
  pub cpu_limit : Q

module _ {F : Type 0} ⦃f : Float64 F⦄ where
  unfoldable pub is_node_above_target : F → Bool
  is_node_above_target avg_diff = gt avg_diff (num adjustment_slack)

  unfoldable pub is_node_below_target : F → Bool
  is_node_below_target avg_diff = f.lt avg_diff (minus adjustment_slack)

  unfoldable pub is_node_in_violation : F → Bool
  unfolding is_node_above_target is_node_below_target
  is_node_in_violation avg_diff = is_node_above_target avg_diff || is_node_below_target avg_diff

abbrev pub is_ended : Phase → Bool
is_ended Phase.succeeded = true
is_ended Phase.failed = true
is_ended _ = false

-- `getTimeSincePodScheduled(pod) < TimeSinceSchedulingThreshold`: the first condition of that type
-- counts, and without one the time is 0.
unfoldable pub is_fresh : Time → List Condition → Bool
is_fresh now [] = true
is_fresh now (c ∷ rest) =
    let later = is_fresh now rest in
    if c.is_pod_scheduled then ltb now (c.last_transition + one_minute) else later

abbrev pub is_found : Option ℕ → Bool
is_found none = false
is_found (some i) = true

module _ {Q : Type 0} where
  unfoldable pub is_pod_completed : Option (Pod Q) → Bool
  is_pod_completed none = false
  is_pod_completed (some pod) = is_ended pod.phase

  unfoldable pub get_pod_from_name : List (Pod Q) → String → Option (Pod Q)
  get_pod_from_name [] name = none
  get_pod_from_name (pod ∷ rest) name =
      let later = get_pod_from_name rest name in if pod.name == name then some pod else later

  unfoldable pub contains_pod : List (SkipItem Q) → String → Bool
  contains_pod [] name = false
  contains_pod (item ∷ rest) name = (item.pod_name == name) || contains_pod rest name

  unfoldable pub remove_index : List (SkipItem Q) → ℕ → List (SkipItem Q)
  remove_index items i = take i items ++ drop (suc i) items

  -- `timeSinceInsertion > TimeSinceInsertionThreshold || isPodCompleted(kubePod)`
  unfoldable pub is_expired : Time → List (Pod Q) → SkipItem Q → Bool
  unfolding is_pod_completed get_pod_from_name
  is_expired now pods item =
      ltb (item.insertion_time + one_minute) now
      || is_pod_completed (get_pod_from_name pods item.pod_name)

  -- The range of refreshSkiplist over the list that it starts with: an expired item is removed from
  -- the current list at the index of the range, which is read before, and panics past the end.
  unfoldable pub refresh_from :
      Time → List (Pod Q) → ℕ → List (SkipItem Q) → Action (List (SkipItem Q)) (Unit {0})
  refresh_from now pods i [] current = (ok tt, current)
  refresh_from now pods i (item ∷ rest) current = elim (is_expired now pods item) [
    | false ↦ refresh_from now pods (suc i) rest current
    | true ↦ elim (ltb i (length current)) [
      | false ↦ (panic, current)
      | true ↦ refresh_from now pods (suc i) rest (remove_index current i)
    ]
  ]

  unfoldable pub should_skip_pod : Time → List (SkipItem Q) → Pod Q → Bool
  should_skip_pod now skip_list pod =
      is_found (find? pod.name "telemetry-aware-scheduling")
      || contains_pod skip_list pod.name
      || is_fresh now pod.conditions

  -- `pod.Spec.Containers[0].Resources.Limits.Cpu()`
  unfoldable pub cpu_limit_of : Pod Q → Outcome Q
  cpu_limit_of pod = elim pod.limits [ [] ↦ panic | limit ∷ _ ↦ ok limit ]
