-- ===== src/Examples/Calls.antt =====
-- The theorems on calls and on throttling, applied to the cluster.
use target_exporter.Prelude.{List, ◌≡◌, refl, true, false, [], ◌∷◌, ◌++◌, Dict, All}
use target_exporter.Prelude.Int.{ℤ}
use target_exporter.Float.{Thousandths, thousandths_float, num, minus}
use target_exporter.World.{Event, Log, Pod, Phase}
use target_exporter.World.Calls.{Calls}
use target_exporter.Promclient.{NodeCpuUsage}
use target_exporter.Scheduling.{Target}
use target_exporter.Scheduling.Orchestrator.{check_start_jobs}
use target_exporter.Scheduling.Orchestrator.Starting.{IsStart, check_start_jobs-last}
use target_exporter.Scheduling.SelfDriving.Round.{reconcile}
use target_exporter.Scheduling.SelfDriving.Patches.{IsMild, reconcile-Calls}
use target_exporter.Examples.{milli_quantity, job_at, pod_of, cluster, start}

check_start_jobs-last_example :
    (new : Log ℤ) × ((check_start_jobs cluster (start tt)).1.log
      ≡ ([] ++ (Event.list_jobs ∷ [])) ++ new)
    × All (IsStart "later") new
check_start_jobs-last_example =
    check_start_jobs-last cluster (λ name log job e. cc) (start tt)
      (job_at "old" 0 1 3 true ∷ job_at "waiting" 0 0 5 true ∷ []) (job_at "later" 0 0 9 false) refl
      ((true, refl), ((true, refl), tt)) (false, refl)

abbrev loaded : NodeCpuUsage Thousandths
loaded = record { node_name = "n1"; usages = minus 6 ∷ [] }

-- Scheduled at the zero time.
abbrev old_pods : List (Pod ℤ)
old_pods =
    record (pod_of "p2" "waiting" Phase.running) {
      conditions = record { is_pod_scheduled = true; last_transition = 0 } ∷ [];
    }
    ∷ []

abbrev one_target : Dict (Target Thousandths)
one_target = ("n1", record { target = num 80; gauge = num 80 }) ∷ []

reconcile-Calls_example : Calls IsMild (reconcile cluster one_target)
reconcile-Calls_example = reconcile-Calls cluster one_target
