-- ===== src/Examples/Rounds.antt =====
-- The theorems on the rounds of the strategies, applied to small states.
use target_exporter.Prelude.{
  ℕ, ◌≡◌, refl, inl, inr, Bool, true, false, String, List, [], ◌∷◌, Dict, All, insert, tally,
  eq_iff, arith,
}
use target_exporter.Prelude.Int.{ℤ, pos, ◌+ℤ◌, ◌-ℤ◌, ◌*ℤ◌, div_ℤ}
use target_exporter.Float.{Thousandths, thousandths_float, Thousandths-IsOrdered, num}
use target_exporter.Outcome.{Outcome, ok}
use target_exporter.Promclient.{NodeCpuUsage, get_avg_instant_usage, sum_from}
use target_exporter.Scheduling.{Target, Schedulable, set_schedulable}
use target_exporter.Scheduling.SchedulableStrategy.{
  find_schedulable_node, reconcile_diffs, mark_all,
}
use target_exporter.Scheduling.SchedulableStrategy.Switch.{
  AllOpen, mark_all-reconcile_diffs, reconcile_diffs-switch,
}
use target_exporter.Scheduling.ReduceTargets
use target_exporter.Scheduling.ReduceTargets.{get_lower_setpoint, reduce_node}
use target_exporter.Scheduling.ReduceTargets.Setpoint.{
  IsPicked, AtLeast, get_lower_setpoint-ascending,
}
use target_exporter.Scheduling.ReduceTargets.Lowering.{Lowers, reconcile-Lowers}
use target_exporter.Scheduling.SelfDriving.{
  SkipItem, refresh_from, is_expired, is_node_above_target, is_node_below_target, should_skip_pod,
  contains_pod, is_fresh, cpu_limit_of, get_pod_from_name,
}
use target_exporter.Scheduling.SelfDriving.Delta.{get_violating_pods_delta, simple_deltas}
use target_exporter.Scheduling.SelfDriving.Round.{
  adjusted_limit, patch_pods, patch_pod, add_pod_to_skip_list,
}
use target_exporter.Kubeclient.{patch_cpu_limit, percentage_to_resource_quantity}
use target_exporter.World.{St, Pod, Phase}
use target_exporter.World.Calls.{Calls}
use target_exporter.World.Counts.{AtMost}
use target_exporter.Scheduling.SelfDriving.Apart.{patch_pods-apart}
use target_exporter.Scheduling.SelfDriving.Once.{is_patch_of, patch_pods-AtMost}
use target_exporter.Scheduling.SelfDriving.Skipping.{IsFair, patch_pods-IsFair}
use target_exporter.Scheduling.SelfDriving.SkipList.{refresh_from-wrong}
use target_exporter.Scheduling.SelfDriving.Relax.{relaxation, above_target-subtracts}
use target_exporter.Scheduling.SelfDriving.Adjusting.{IsPatch, IsNonzero}
use target_exporter.World.Covering.{Covers}
use target_exporter.Examples.{milli_quantity, pod_of, some_pods, cluster, start}

abbrev flag : Bool → Schedulable Thousandths
flag b = record { schedulable = b; gauge = num 0 }

abbrev diff_of : String → Thousandths → NodeCpuUsage Thousandths
diff_of node x = record { node_name = node; usages = x ∷ [] }

abbrev one_open : Dict (Schedulable Thousandths)
one_open = ("n1", flag true) ∷ ("n2", flag false) ∷ []

reconcile_diffs-switch_example :
    reconcile_diffs (diff_of "n1" (num 0) ∷ diff_of "n2" (num 2) ∷ []) one_open ≡ (
      ok tt,
      insert "n2"
          (set_schedulable true (flag false))
          (insert "n1" (set_schedulable false (flag true)) one_open),
    )
unfolding find_schedulable_node ◌*ℤ◌
reconcile_diffs-switch_example =
    reconcile_diffs-switch (diff_of "n1" (num 0) ∷ diff_of "n2" (num 2) ∷ []) one_open "n1" "n2"
      (flag true) (flag false) refl (ground (arith, eq_iff "n1" ""))
      (inr (refl, (num 0, [], refl, refl), (refl, tt)))
      (num 0, [], refl, inr (refl, (num 2, [], refl, inl (refl, refl))))
      (ground (arith, eq_iff "n1" "n2")) refl refl

abbrev ascending : List Thousandths
ascending = num 5 ∷ num 50 ∷ num 80 ∷ num 100 ∷ []

get_lower_setpoint-ascending_example :
    IsPicked ascending (num 80) (get_lower_setpoint ascending (num 80))
    × All (AtLeast (num 80) (get_lower_setpoint ascending (num 80))) ascending
unfolding ◌*ℤ◌
get_lower_setpoint-ascending_example =
    get_lower_setpoint-ascending Thousandths-IsOrdered ascending (num 80)
      ((refl, (refl, (refl, tt))), ((refl, (refl, tt)), ((refl, tt), (tt, tt))))

abbrev target_at : Thousandths → Target Thousandths
target_at x = record { target = x; gauge = x }

abbrev some_targets : Dict (Target Thousandths)
some_targets = ("n1", target_at (num 80)) ∷ ("n2", target_at (num 50)) ∷ []

reconcile-Lowers_example :
    Lowers some_targets (ReduceTargets.reconcile cluster ascending (start some_targets)).1.own
reconcile-Lowers_example =
    reconcile-Lowers Thousandths-IsOrdered cluster ascending (start some_targets)

abbrev item_at : String → ℕ → SkipItem ℤ
item_at name t = record { pod_name = name; insertion_time = t; cpu_limit = pos 2000 }

abbrev four_items : List (SkipItem ℤ)
four_items = item_at "p1" 90 ∷ item_at "p1" 95 ∷ item_at "p2" 96 ∷ item_at "p3" 99 ∷ []

refresh_from-wrong_example :
    refresh_from 100 some_pods 0 four_items four_items
    ≡ (ok tt, item_at "p1" 95 ∷ item_at "p3" 99 ∷ [])
unfolding is_expired
refresh_from-wrong_example =
    refresh_from-wrong 100 some_pods [] (item_at "p3" 99 ∷ []) (item_at "p1" 90) (item_at "p1" 95)
      (item_at "p2" 96) tt refl refl refl (refl, tt)

patch_pods-IsFair_example :
    Calls
      (IsFair 100 four_items some_pods)
      (patch_pods cluster (("n1", pos 4) ∷ []) (diff_of "n1" (num 6)) 100 four_items some_pods)
patch_pods-IsFair_example =
    patch_pods-IsFair cluster (("n1", pos 4) ∷ []) (diff_of "n1" (num 6)) 100 four_items some_pods

patch_pods-AtMost_example :
    AtMost
      (is_patch_of "p2")
      1
      (patch_pods cluster (("n1", pos 4) ∷ []) (diff_of "n1" (num 6)) 100 four_items some_pods)
patch_pods-AtMost_example =
    patch_pods-AtMost cluster "p2" (("n1", pos 4) ∷ []) (diff_of "n1" (num 6)) 100 four_items
      some_pods

mark_all-reconcile_diffs_example :
    (reconcile_diffs (diff_of "n1" (num 2) ∷ []) (mark_all one_open) ≡ (ok tt, mark_all one_open))
    × AllOpen (reconcile_diffs (diff_of "n1" (num 2) ∷ []) (mark_all one_open)).1
unfolding ◌*ℤ◌
mark_all-reconcile_diffs_example =
    mark_all-reconcile_diffs (diff_of "n1" (num 2) ∷ []) "n1" (flag true) (("n2", flag false) ∷ [])
      (ground (arith, eq_iff "n1" "")) (inr (num 2, [], refl, refl), tt)

-- Scheduled at the zero time.
abbrev old_pods : List (Pod ℤ)
old_pods =
    record (pod_of "p2" "waiting" Phase.running) {
      conditions = record { is_pod_scheduled = true; last_transition = 0 } ∷ [];
    }
    ∷ []

abbrev first_visit : Outcome (Unit {0}) × St (List (SkipItem ℤ)) ℤ
first_visit =
    patch_pods cluster (("n1", pos 4) ∷ []) (diff_of "n1" (num 6)) 100_000_000_000 [] old_pods
      (start [])

above_target-subtracts_example :
    let d = relaxation (diff_of "n1" (num 6)) old_pods in
    Covers
      (λ pod. IsPatch (("n1", pos 4) ∷ []) "n1" old_pods milli_quantity.sub (pod.name, d))
      (λ pod. IsNonzero (pod.name, d))
      old_pods
      []
      first_visit
unfolding is_node_above_target get_avg_instant_usage sum_from ◌*ℤ◌ ◌+ℤ◌ ◌-ℤ◌ div_ℤ should_skip_pod
    contains_pod is_fresh
above_target-subtracts_example =
    above_target-subtracts cluster (("n1", pos 4) ∷ []) (diff_of "n1" (num 6)) Thousandths-IsOrdered
      refl 100_000_000_000 [] old_pods (start []) refl

patch_pods-apart_example :
    tally
      (is_patch_of "p2")
      (patch_pods cluster
        (("n1", pos 4) ∷ [])
        (diff_of "n1" (num 6))
        110
        first_visit.1.own
        old_pods
        first_visit.1).1.log
    ≡ tally (is_patch_of "p2") first_visit.1.log
unfolding patch_pods get_violating_pods_delta get_avg_instant_usage ◌*ℤ◌ div_ℤ ◌+ℤ◌ ◌-ℤ◌
    simple_deltas should_skip_pod contains_pod is_fresh patch_pod patch_cpu_limit cpu_limit_of
    add_pod_to_skip_list sum_from get_pod_from_name is_node_above_target is_node_below_target
    percentage_to_resource_quantity adjusted_limit
patch_pods-apart_example =
    patch_pods-apart cluster (("n1", pos 4) ∷ []) (("n1", pos 4) ∷ []) (diff_of "n1" (num 6))
      (diff_of "n1" (num 6)) 100_000_000_000 110_000_000_000 [] old_pods old_pods (start [])
      first_visit.1 "p2" refl (omega arith)
