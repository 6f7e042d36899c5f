-- ===== src/Scheduling/SelfDriving/Relax.antt =====
-- What a visit does to the limits on a node whose average difference is above the slack.
use target_exporter.Prelude.{
  ◌≡◌, refl, sym, ap, ◌∙◌, subst, true, String, List, [], Dict, length, In,
}
use target_exporter.Prelude.Int.{ℤ}
use target_exporter.Float.{Float64, num, IsOrdered}
use target_exporter.Outcome.{ok, and_then}
use target_exporter.World.{Quantity, Time, Pod, Env, St}
use target_exporter.World.Calls.{All-weaker}
use target_exporter.World.Covering.{Covers, as-Covers, All-lookup, All-In}
use target_exporter.Promclient.{NodeCpuUsage, get_avg_instant_usage}
use target_exporter.Scheduling.SelfDriving.{SkipItem, is_node_above_target}
use target_exporter.Scheduling.SelfDriving.Delta.{simple_deltas, get_violating_pods_delta}
use target_exporter.Scheduling.SelfDriving.Round.{adjusted_limit, patch_pods}
use target_exporter.Scheduling.SelfDriving.Adjusting.{
  filtered, patches, patch_pods_lem, IsPatch, IsNonzero, patches-Covers,
}
use target_exporter.Scheduling.SelfDriving.Entries.{simple_deltas-All, simple_deltas-In}

module _ {F Q : Type 0} ⦃f : Float64 F⦄ (diff : NodeCpuUsage F) where
  -- The absolute value of the average difference, divided by the number of pods.
  abbrev pub relaxation : List (Pod Q) → F
  relaxation pods = f.div (f.abs (get_avg_instant_usage diff.usages)) (num (length pods))

module _ {F Q : Type 0} ⦃f : Float64 F⦄ ⦃q : Quantity Q⦄ (env : Env F Q) (cpu_counts : Dict ℤ)
    (diff : NodeCpuUsage F) where
  module _ (laws : IsOrdered F) (zero_lt_two : f.lt (num 0) (num 2) ≡ true) where
    above-nonneg : (avg : F) → is_node_above_target avg ≡ true → f.le (num 0) avg ≡ true
    unfolding is_node_above_target
    above-nonneg avg h = laws.le_of_lt (num 0) avg (laws.lt_trans (num 0) (num 2) avg zero_lt_two h)

    above-deltas :
        (pods : List (Pod Q))
        → is_node_above_target (get_avg_instant_usage diff.usages) ≡ true
        → get_violating_pods_delta env cpu_counts diff pods
          ≡ ok (simple_deltas (relaxation diff pods) pods [])
    unfolding get_violating_pods_delta
    above-deltas pods h = rw (above-nonneg (get_avg_instant_usage diff.usages) h) refl

    relaxed :
        (todo : List (Pod Q)) (st : St (List (SkipItem Q)) Q)
        → is_node_above_target (get_avg_instant_usage diff.usages) ≡ true
        → Covers
            (λ pod. IsPatch cpu_counts diff.node_name todo q.sub (pod.name, relaxation diff todo))
            (λ pod. IsNonzero (pod.name, relaxation diff todo))
            todo
            st.log
            (patches env cpu_counts diff todo (simple_deltas (relaxation diff todo) todo []) st)
    unfolding adjusted_limit
    relaxed todo st h =
        let d = relaxation diff todo in
        as-Covers (IsPatch cpu_counts diff.node_name todo q.sub) IsNonzero
          (λ pod. IsPatch cpu_counts diff.node_name todo q.sub (pod.name, d))
          (λ pod. IsNonzero (pod.name, d)) (simple_deltas d todo []) todo st.log
          (patches env cpu_counts diff todo (simple_deltas d todo []) st)
          (λ entry e at p.
            let (pod, in_todo, is) =
              All-lookup IsOfPod (simple_deltas d todo []) entry
                (simple_deltas-All IsOfPod d todo []
                  (All-weaker todo (λ pod at. (pod, at, refl)) (All-In todo)) tt)
                at in
            (pod, in_todo, subst (λ x. IsPatch cpu_counts diff.node_name todo q.sub x e) is p))
          (All-weaker todo (λ pod at n. ((pod.name, d), at, n, (λ e p. p)))
            (simple_deltas-In d todo []))
          (patches-Covers env cpu_counts diff.node_name (get_avg_instant_usage diff.usages) todo
            q.sub (λ limit delta. rw h refl) (simple_deltas d todo []) st)
      where
        IsOfPod : String × F → Type 0
        IsOfPod entry = (pod : Pod Q) × In pod todo × (entry ≡ (pod.name, relaxation diff todo))

    -- On a node whose average difference is above the slack of 2, where the numbers are ordered and 0
    -- is less than 2, each call of a visit subtracts from the limit of a pod that is not skipped the
    -- quantity of the absolute value of that difference divided by the number of these pods; and a
    -- visit that ends without an error has made such a call for every one of them, unless that
    -- value is 0.
    pub above_target-subtracts :
        (now : Time) (items : List (SkipItem Q)) (pods : List (Pod Q))
        (st : St (List (SkipItem Q)) Q)
        → is_node_above_target (get_avg_instant_usage diff.usages) ≡ true
        → let todo = filtered now items pods in
          let d = relaxation diff todo in
          Covers
            (λ pod. IsPatch cpu_counts diff.node_name todo q.sub (pod.name, d))
            (λ pod. IsNonzero (pod.name, d))
            todo
            st.log
            (patch_pods env cpu_counts diff now items pods st)
    above_target-subtracts now items pods st h =
        let todo = filtered now items pods in
        subst
          (Covers
            (λ pod. IsPatch cpu_counts diff.node_name todo q.sub (pod.name, relaxation diff todo))
            (λ pod. IsNonzero (pod.name, relaxation diff todo)) todo st.log)
          (sym (
            patch_pods_lem env cpu_counts diff now items pods st
            ∙ ap (λ o. and_then o (patches env cpu_counts diff todo) st) (above-deltas todo h)))
          (relaxed todo st h)
