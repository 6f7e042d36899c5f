-- ===== src/Examples/Clients.antt =====
-- The theorems on the clients of Kubernetes and Prometheus, applied to the cluster.
use target_exporter.Kubeclient.Durations.{render_k8s_job-deadline}
use target_exporter.Prelude.{◌≡◌, refl, ◌*◌, arith, true, some, List, [], ◌∷◌, ◌++◌}
use target_exporter.Prelude.Int.{ℤ, pos, div_ℤ, ◌*ℤ◌, wrap_int64}
use target_exporter.Float.{Thousandths, thousandths_float, num}
use target_exporter.Outcome.{ok}
use target_exporter.World.{Event, Phase, JobManifest}
use target_exporter.Kubeclient.{
  delete_job, delete_pod, clear_jobs, clear_pods, clear_completed_workloads, is_owner_present,
  insert_by_creation, sort_by_creation, owns_any, delete_job_foreground, delete_first_pending,
  pick_pending, delete_pending_workload,
}
use target_exporter.Kubeclient.Builder.{
  StressJob, render_env, render_container, render_containers, render_selector, render_at,
  render_k8s_job, get_min_cpu, minutes_to_duration,
}
use target_exporter.Kubeclient.Clearing.{
  job_deletions, pod_deletions, is_some_succeeded, clear_completed_workloads-ok,
}
use target_exporter.Kubeclient.Pending.{Chooses, delete_pending_workload-Chooses}
use target_exporter.Kubeclient.Rendering.{
  HasParts, IsRendered, IsTimed, render_k8s_job-IsRendered, get_min_cpu-render_k8s_job,
}
use target_exporter.Scheduling.Orchestrator.{
  Settings, WorkloadSpawnOption, set_cpu_target, set_job_length, add_workload,
}
use target_exporter.Scheduling.Orchestrator.Workload.{creations, CreatesOne, add_workload-creations}
use target_exporter.Examples.{
  milli_quantity, pod_of, some_jobs, some_pods, prototype, cluster, start,
}

clear_completed_workloads-ok_example :
    ((clear_completed_workloads cluster (start tt)).1 ≡ record (start tt) {
      log =
          ((Event.list_jobs ∷ []) ++ job_deletions some_jobs ++ (Event.list_pods ∷ []))
          ++ pod_deletions some_pods;
    })
    × (true ≡ is_some_succeeded some_pods)
unfolding clear_completed_workloads clear_jobs clear_pods delete_job delete_pod
clear_completed_workloads-ok_example =
    clear_completed_workloads-ok cluster (start tt) some_jobs some_pods true refl refl refl

delete_pending_workload-Chooses_example :
    Chooses cluster some_jobs some_pods
      (start tt)
      true
      (delete_pending_workload cluster (start tt)).1
unfolding delete_pending_workload pick_pending delete_first_pending sort_by_creation
    insert_by_creation owns_any is_owner_present delete_job_foreground
delete_pending_workload-Chooses_example =
    delete_pending_workload-Chooses cluster some_jobs some_pods (start tt) true refl refl refl

abbrev stress : StressJob Thousandths ℤ
stress = record {
  name = "stress";
  cpu_limit = pos 2000;
  cpu_count = pos 4;
  workload_type = "cpu";
  node_selector = some [];
  start_date = 500;
  min_cpu_limit = num 2;
  length = pos 600_000_000_000;
}

abbrev prototype_parts : HasParts prototype
prototype_parts = record {
  labels = [];
  container = record {
    limits = some [];
    requests = some [];
    env = ("MAX_CPU_CORES", "1") ∷ ("STRESS_SYSTEM_FOR", "10m") ∷ [];
  };
  others = [];
  limits = [];
  requests = [];
  first = ("MAX_CPU_CORES", "1");
  second = ("STRESS_SYSTEM_FOR", "10m");
  more = [];
  has_labels = refl;
  has_containers = refl;
  has_limits = refl;
  has_requests = refl;
  has_env = refl;
}

render_k8s_job-IsRendered_example :
    (m' : JobManifest ℤ) × ((render_k8s_job cluster stress (start tt)).0 ≡ ok m')
    × IsRendered cluster stress m'
    × IsTimed cluster stress (cluster.now []) prototype prototype_parts m'
render_k8s_job-IsRendered_example =
    render_k8s_job-IsRendered cluster stress (start tt) prototype prototype_parts refl

render_k8s_job-deadline_example :
    (m' : JobManifest ℤ) × ((render_k8s_job cluster stress (start tt)).0 ≡ ok m')
    × (m'.active_deadline_seconds ≡ some (pos (60 * 10)))
unfolding minutes_to_duration ◌*ℤ◌ wrap_int64
render_k8s_job-deadline_example =
    render_k8s_job-deadline cluster stress (start tt) prototype 10 prototype_parts refl
      (omega arith) refl

abbrev rendered : JobManifest ℤ
rendered = record {
  name = "stress";
  annotations = some (("ecoqube.eu/start", "today") ∷ []);
  suspend = some true;
  active_deadline_seconds = some (pos 600);
  template_labels = some (("app", "stress") ∷ []);
  template_annotations = some (("ecoqube.eu/min-cpu-limit", "2") ∷ []);
  node_selector = some (("ecoqube.eu/hardware-type", "cpu") ∷ []);
  containers =
      record {
        limits = some (("cpu", pos 2000) ∷ []);
        requests = some (("cpu", pos 500) ∷ []);
        env = ("MAX_CPU_CORES", "4") ∷ ("STRESS_SYSTEM_FOR", "10m") ∷ [];
      }
      ∷ [];
}

get_min_cpu-render_k8s_job_example :
    get_min_cpu cluster (pod_of "p" "stress" Phase.running) ≡ ok (num 2)
unfolding render_k8s_job render_at render_containers render_container render_env render_selector
    div_ℤ
get_min_cpu-render_k8s_job_example =
    get_min_cpu-render_k8s_job cluster stress (start tt) rendered
      (pod_of "p" "stress" Phase.running) (num 2) refl refl refl

abbrev options : List (WorkloadSpawnOption Thousandths)
options = set_cpu_target (pos 50) ∷ set_job_length (pos 5) ∷ []

abbrev settings : Settings
settings = record {
  tawa_enabled = true;
  dummy = "n1";
  pyzhm_node_mappings = [];
  pyzhm_address = "";
}

add_workload-creations_example :
    CreatesOne (creations {Q = ℤ} []) (add_workload cluster settings options (start tt))
add_workload-creations_example = add_workload-creations cluster settings options (start tt)
