-- ===== src/Scheduling/SelfDriving/Throttle.antt =====
-- What a visit does to the limits on a node whose average difference is below the slack.
use target_exporter.Prelude.{
  ◌-◌, ◌≡◌, ◌≢◌, ◌⊎◌, true, String, List, Dict, length, contains_key, In, All,
}
use target_exporter.Prelude.Int.{ℤ}
use target_exporter.Float.{Float64, num}
use target_exporter.Outcome.{Outcome, ok}
use target_exporter.World.{Quantity, Pod, Log, Env, St}
use target_exporter.World.Covering.{Covers}
use target_exporter.Promclient.{NodeCpuUsage, get_avg_instant_usage}
use target_exporter.Kubeclient.Builder.{get_min_cpu}
use target_exporter.Scheduling.SelfDriving.{SkipItem, cpu_limit_of}
use target_exporter.Scheduling.SelfDriving.Adjusting.{IsPatch, IsNonzero}
use target_exporter.Scheduling.SelfDriving.Partial.{total, IsLow, IsAmple, partial, IsPartial}

module _ {F Q : Type 0} ⦃f : Float64 F⦄ ⦃q : Quantity Q⦄ (env : Env F Q) (cpu_counts : Dict ℤ)
    (node : String) (avg : F) (pods : List (Pod Q)) where
  -- The updates of a node that is to be throttled, in terms of its pods. A pod that is low has the
  -- update of its own, its limit less its minimum. The others with a minimum have the same share:
  -- the difference less the sum of the partial updates, divided by the number of the other pods.
  pub record AreThrottled (updates : Dict F) : Type 0 where
    pub partials : List (String × F)
    pub share : F
    pub low : All (IsPartial env cpu_counts node avg pods) partials
    pub shared : share ≡ f.div (f.sub avg (total partials)) (num (length pods - length partials))
    pub entries :
        All (λ e. In e partials ⊎ ((pod : Pod Q) × In pod pods × (e ≡ (pod.name, share)))) updates
    pub keyed : All (λ e. contains_key e.0 updates ≡ true) partials
    pub complete :
        All
          (λ pod.
            (min_cpu : F)
            → get_min_cpu env pod ≡ ok min_cpu
            → (IsAmple env cpu_counts node avg min_cpu × In (pod.name, share) updates)
              ⊎ (IsLow env cpu_counts node avg min_cpu
                  × ((limit : Q) × (cpu_limit_of pod ≡ ok limit)
                      × In (partial env cpu_counts node avg pod min_cpu limit) partials)))
          pods

module _ {F Q : Type 0} ⦃f : Float64 F⦄ ⦃q : Quantity Q⦄ (env : Env F Q) (cpu_counts : Dict ℤ)
    (diff : NodeCpuUsage F) where
  -- The calls are those of the updates for the pods of the visit, each of which adds the quantity of
  -- its update to the limit; or no updates were found, and the visit ends without a call and not
  -- in success.
  abbrev pub Throttles :
      List (Pod Q) → Log Q → Outcome (Unit {0}) × St (List (SkipItem Q)) Q → Type 0
  Throttles todo log out =
      ((out.1.log ≡ log) × (out.0 ≢ ok tt))
      ⊎ ((updates : Dict F) × AreThrottled env cpu_counts diff.node_name
            (get_avg_instant_usage diff.usages) todo updates
          × Covers (IsPatch cpu_counts diff.node_name todo q.add) IsNonzero updates log out)
