-- ===== src/Scheduling/SelfDriving/Delta.antt =====
-- getViolatingPodsDelta of pkg/scheduling/selfdriving.go. All updates are of one node, so the map
-- holds the update alone.
use target_exporter.Prelude.{
  ℕ, suc, ◌-◌, String, List, [], ◌∷◌, ◌++◌, Dict, insert, length, ◌==◌, if◌then◌else◌,
}
use target_exporter.Prelude.Int.{ℤ}
use target_exporter.Float.{Float64, num, ge}
use target_exporter.Outcome.{Outcome, ok, err, panic, bind_outcome}
use target_exporter.World.{Quantity, Pod, Env}
use target_exporter.Promclient.{NodeCpuUsage, get_avg_instant_usage}
use target_exporter.Kubeclient.{resource_quantity_to_percentage}
use target_exporter.Kubeclient.Builder.{get_min_cpu}
use target_exporter.Scheduling.SelfDriving.{cpu_limit_of}

-- The variables of the first loop of the throttling branch.
pub record Split (F Q : Type 0) : Type 0 where
  pub updates : Dict F
  pub subceeding_count : ℕ
  pub ignore_partials : F
  pub not_subceeding : List (Pod Q)

module _ {F Q : Type 0} where
  -- The branch for a difference of at least 0.
  unfoldable pub simple_deltas : F → List (Pod Q) → Dict F → Dict F
  simple_deltas delta [] updates = updates
  simple_deltas delta (pod ∷ rest) updates =
      simple_deltas delta rest (insert pod.name delta updates)

  -- The last loop of the throttling branch.
  unfoldable pub even_deltas : F → List (Pod Q) → Dict F → Dict F
  even_deltas delta [] updates = updates
  even_deltas delta (pod ∷ rest) updates = even_deltas delta rest (insert pod.name delta updates)

module _ {F Q : Type 0} ⦃f : Float64 F⦄ ⦃q : Quantity Q⦄ (env : Env F Q) where
  -- A pod of the first loop, from where its minimum is known.
  unfoldable pub split_pod : Dict ℤ → String → F → Pod Q → F → Split F Q → Outcome (Split F Q)
  split_pod cpu_counts node avg pod min_cpu s = bind_outcome (cpu_limit_of pod) λ quantity.
      let limit = resource_quantity_to_percentage cpu_counts quantity node in
      ok (
        if f.lt (f.sub min_cpu (f.abs avg)) (num 0)
        then record s {
          updates = insert pod.name (f.sub limit min_cpu) s.updates;
          subceeding_count = suc s.subceeding_count;
          ignore_partials = f.add s.ignore_partials (f.sub limit min_cpu);
        }
        else record s { not_subceeding = s.not_subceeding ++ (pod ∷ []) })

  -- A pod without the annotation is passed over; other errors end the call.
  unfoldable pub split_min :
      Dict ℤ → String → F → Pod Q → Outcome F → Split F Q → Outcome (Split F Q)
  split_min cpu_counts node avg pod (ok min_cpu) s = split_pod cpu_counts node avg pod min_cpu s
  split_min cpu_counts node avg pod (err e) s =
      if e == "job min annotation not found" then ok s else err e
  split_min cpu_counts node avg pod panic s = panic

  unfoldable pub split_pods : Dict ℤ → String → F → List (Pod Q) → Split F Q → Outcome (Split F Q)
  split_pods cpu_counts node avg [] s = ok s
  split_pods cpu_counts node avg (pod ∷ rest) s =
      bind_outcome (split_min cpu_counts node avg pod (get_min_cpu env pod) s)
        λ s'. split_pods cpu_counts node avg rest s'

  unfoldable pub throttle_deltas : Dict ℤ → String → F → List (Pod Q) → Outcome (Dict F)
  throttle_deltas cpu_counts node avg pods =
      bind_outcome
        (split_pods cpu_counts node avg pods (record {
          updates = [];
          subceeding_count = 0;
          ignore_partials = num 0;
          not_subceeding = [];
        }))
        λ s. ok (
          even_deltas (f.div (f.sub avg s.ignore_partials) (num (length pods - s.subceeding_count)))
            s.not_subceeding s.updates)

  unfoldable pub get_violating_pods_delta :
      Dict ℤ → NodeCpuUsage F → List (Pod Q) → Outcome (Dict F)
  get_violating_pods_delta cpu_counts diffs pods =
      let avg = get_avg_instant_usage diffs.usages in
      if ge avg (num 0)
      then ok (simple_deltas (f.div (f.abs avg) (num (length pods))) pods [])
      else throttle_deltas cpu_counts diffs.node_name avg pods
