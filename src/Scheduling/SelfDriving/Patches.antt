-- ===== src/Scheduling/SelfDriving/Patches.antt =====
-- Which calls a round of the self-driving strategy makes.
use text.Mathlib.Text.{find?}
use target_exporter.Prelude.{
  ◌≡◌, refl, sym, subst, append-nil, Bool, Bool-cases, inl, inr, false, not, String, none, some,
  List, [], ◌∷◌, Dict, lookup, keep, All, arith, ◌==◌, eq_iff,
}
use target_exporter.Prelude.Int.{ℤ}
use target_exporter.Float.{Float64}
use target_exporter.Outcome.{ok, panic, ◌>>=◌, lift, pure}
use target_exporter.World.{Quantity, Time, Pod, Event, Env, call, observe, within}
use target_exporter.World.Calls.{
  Calls, call-Calls, stay-Calls, lift-Calls, >>=-Calls, for_each_body-Calls,
}
use target_exporter.Promclient.{
  NodeCpuUsage, get_current_cpu_diff, get_cpu_counts, get_avg_instant_usage,
}
use target_exporter.Kubeclient.{get_pods_in_namespace, get_pods_in_namespace_by_node}
use target_exporter.Scheduling.{Target}
use target_exporter.Scheduling.SelfDriving.{
  SkipItem, is_found, is_node_in_violation, get_pod_from_name, should_skip_pod, refresh_from,
}
use target_exporter.Scheduling.SelfDriving.Skipping.{patch_pods-Calls}
use target_exporter.Scheduling.SelfDriving.Round.{
  refresh_skip_list, patch_pods, adjust_node, visit_node, counts_or_nil, reconcile,
}

-- The name is one of the scheduler's own pods.
abbrev pub is_spared : String → Bool
is_spared name = is_found (find? name "telemetry-aware-scheduling")

module _ {Q : Type 0} where
  -- A query, a listing of pods, or a patch of the CPU limit of a pod that is not spared.
  abbrev pub IsMild : Event Q → Type 0
  IsMild (Event.query t) = Unit
  IsMild Event.list_pods = Unit
  IsMild (Event.patch_cpu_limit name limit) = is_spared name ≡ false
  IsMild _ = ⊥

  abbrev AllUnspared : List (Pod Q) → Type 0
  AllUnspared pods = All (λ pod. is_spared pod.name ≡ false) pods

  keep-AllUnspared :
      (now : Time) (items : List (SkipItem Q)) (pods : List (Pod Q))
      → AllUnspared (keep (λ pod. not (should_skip_pod now items pod)) pods)
  unfolding should_skip_pod
  keep-AllUnspared now items [] = tt
  keep-AllUnspared now items (pod ∷ rest) = ground (arith, keep-AllUnspared now items rest)

  found-unspared :
      (pods : List (Pod Q)) (name : String) (pod : Pod Q)
      → AllUnspared pods
      → get_pod_from_name pods name ≡ some pod
      → is_spared name ≡ false
  unfolding get_pod_from_name
  found-unspared [] name pod h e = cc
  found-unspared (p ∷ rest) name pod h e = elim (Bool-cases (p.name == name)) [
    | inl b ↦ subst (λ n. is_spared n ≡ false) ((eq_iff p.name name).0 b) h.0
    | inr b ↦ found-unspared rest name pod h.1 (rw b at e)
  ]

module _ {F Q : Type 0} ⦃f : Float64 F⦄ ⦃q : Quantity Q⦄ (env : Env F Q) where
  abbrev Own : Type 0
  Own = List (SkipItem Q)

  patches-Calls :
      (cpu_counts : Dict ℤ) (diff : NodeCpuUsage F) (now : Time) (items : Own) (pods : List (Pod Q))
      → Calls {S = Own} IsMild (patch_pods env cpu_counts diff now items pods)
  patches-Calls cpu_counts diff now items pods =
      patch_pods-Calls env IsMild cpu_counts diff now items pods
        λ name pod found limit. found-unspared _ name pod (keep-AllUnspared now items pods) found

  refresh_skip_list-Calls : Calls {S = Own} IsMild (refresh_skip_list env)
  unfolding refresh_skip_list get_pods_in_namespace
  refresh_skip_list-Calls =
      >>=-Calls IsMild (get_pods_in_namespace env) _ (call-Calls IsMild _ env.pods tt) λ pods.
        stay-Calls IsMild
          (observe env.now >>= λ now. within (λ items. refresh_from now pods 0 items items))
          (λ st. refl)

  node_pods-Calls :
      (node : String) → Calls {S = Own} IsMild (get_pods_in_namespace_by_node env node)
  unfolding get_pods_in_namespace_by_node get_pods_in_namespace
  node_pods-Calls node =
      >>=-Calls IsMild (get_pods_in_namespace env) _ (call-Calls IsMild _ env.pods tt)
        (λ pods. stay-Calls IsMild (pure (keep (λ pod. pod.node_name == node) pods)) (λ st. refl))

  adjust_node-Calls :
      (targets : Dict (Target F)) (cpu_counts : Dict ℤ) (diff : NodeCpuUsage F)
      → Calls {S = Own} IsMild (adjust_node env targets cpu_counts diff)
  unfolding adjust_node
  adjust_node-Calls targets cpu_counts diff =
      >>=-Calls IsMild
        (lift (elim (lookup diff.node_name targets) [ none ↦ panic | some t ↦ ok tt ])) _
        (lift-Calls IsMild _)
        λ _. >>=-Calls IsMild (refresh_skip_list env) _ refresh_skip_list-Calls λ _.
          >>=-Calls IsMild (get_pods_in_namespace_by_node env diff.node_name) _
            (node_pods-Calls diff.node_name)
            λ pods.
              >>=-Calls IsMild (observe env.now) _
                (stay-Calls IsMild (observe env.now) (λ st. refl))
                λ now.
                  >>=-Calls IsMild (within (λ (items : Own). (ok items, items))) _
                    (stay-Calls IsMild (within (λ (items : Own). (ok items, items))) (λ st. refl))
                    λ items. patches-Calls cpu_counts diff now items pods

  visit_node-Calls :
      (targets : Dict (Target F)) (cpu_counts : Dict ℤ) (diff : NodeCpuUsage F)
      → Calls {S = Own} IsMild (visit_node env targets cpu_counts diff)
  unfolding visit_node
  visit_node-Calls targets cpu_counts diff = record {
    calls = λ st. elim (Bool-cases (is_node_in_violation (get_avg_instant_usage diff.usages))) [
      | inl e ↦ rw (e, visit_node) ((adjust_node-Calls targets cpu_counts diff).calls st)
      | inr e ↦ rw (e, visit_node) ([], sym (append-nil st.log), tt)
    ];
  }

  cpu_counts-Calls : Calls {S = Own} IsMild (get_cpu_counts env)
  unfolding get_cpu_counts
  cpu_counts-Calls =
      >>=-Calls IsMild (call _ env.samples) _ (call-Calls IsMild _ env.samples tt)
        (λ samples. lift-Calls IsMild _)

  cpu_diff-Calls : Calls {S = Own} IsMild (get_current_cpu_diff env)
  unfolding get_current_cpu_diff
  cpu_diff-Calls =
      >>=-Calls IsMild (call _ env.samples) _ (call-Calls IsMild _ env.samples tt)
        (λ samples. lift-Calls IsMild _)

  -- A round of the self-driving strategy makes no calls but queries, listings of pods, and patches of
  -- CPU limits, and it never patches a pod whose name contains "telemetry-aware-scheduling". This
  -- holds for every answer of the services, and also when the round ends in an error or a panic.
  pub reconcile-Calls : (targets : Dict (Target F)) → Calls {S = Own} IsMild (reconcile env targets)
  unfolding reconcile
  reconcile-Calls targets =
      >>=-Calls IsMild
        (λ st. (counts_or_nil env (get_cpu_counts env st).0, (get_cpu_counts env st).1)) _
        (record { calls = λ st. cpu_counts-Calls.calls st })
        λ counts.
          >>=-Calls IsMild (get_current_cpu_diff env) _ cpu_diff-Calls
            λ diffs. for_each_body-Calls IsMild diffs _ (visit_node-Calls targets counts)
