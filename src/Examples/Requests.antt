-- ===== src/Examples/Requests.antt =====
-- The theorems on the automatic job spawn and on the handlers, applied to the cluster.
use target_exporter.Prelude.{
  Option, Bool-cases, ◌==◌, ◌≡◌, refl, inl, inr, false, not, String, [], ◌∷◌, Dict, keys, keep,
  contains_key,
}
use target_exporter.Prelude.Int.{ℤ, pos}
use target_exporter.Float.{Thousandths, thousandths_float, num}
use target_exporter.Outcome.{ok, IsCalm}
use target_exporter.Promclient.{get_cpu_counts, counts_from}
use target_exporter.Scheduling.SelfDriving.{cpu_limit_of}
use target_exporter.Scheduling.{Target}
use target_exporter.Scheduling.Orchestrator.{Settings}
use target_exporter.Scheduling.Orchestrator.Workload.{creations}
use target_exporter.Infrastructure.{
  JobScenarioSpawnRequest, Body, reply, Response, get_workloads, post_job_scenario,
}
use target_exporter.Infrastructure.TargetHandlers.{
  check_missing_nodes, get_targets_response, post_targets_request,
}
use target_exporter.Infrastructure.Listing.{Answers, get_workloads-Answers}
use target_exporter.Infrastructure.Creation.{IsScenario, job_count, post_job_scenario-creations}
use target_exporter.Infrastructure.Readback.{post_targets_request-get}
use target_exporter.Infrastructure.Exporter.{
  TargetExporter, new_target_exporter, start_metrics, targets_posted, round_of_schedulable, Step,
  Run,
}
use target_exporter.Infrastructure.Exporter.Started.{
  exported_targets, closed_flags, start_metrics_lem,
}
use target_exporter.Infrastructure.Targets.{post_targets_request-refuses}
use target_exporter.Examples.{milli_quantity, some_pods, cluster, start}

abbrev settings : Settings
settings = record {
  tawa_enabled = false;
  dummy = "n1";
  pyzhm_node_mappings = [];
  pyzhm_address = "";
}

abbrev entry : String → JobScenarioSpawnRequest Thousandths
entry name = record {
  job_name = name;
  job_length = pos 5;
  job_target = pos 10;
  workers_count = pos 4;
  start_date = 500;
  min_cpu_limit = num 2;
}

post_job_scenario-creations_example :
    IsScenario
      (creations {Q = ℤ} [])
      (job_count (ok (entry "a" ∷ entry "b" ∷ [])))
      (post_job_scenario cluster settings (ok (entry "a" ∷ entry "b" ∷ [])) (start tt))
post_job_scenario-creations_example =
    post_job_scenario-creations cluster settings (ok (entry "a" ∷ entry "b" ∷ [])) (start tt)

abbrev two_targets : Dict (Target Thousandths)
two_targets =
    ("n1", record { target = num 80; gauge = num 80 })
    ∷ ("n2", record { target = num 50; gauge = num 50 })
    ∷ []

post_targets_request-refuses_example :
    post_targets_request (ok (("n2", num 30) ∷ ("n3", num 5) ∷ [])) two_targets ≡ (
      ok (
          reply 400 (
            Body.nodes_missing (
              keep
                (λ k. not (contains_key k two_targets))
                (keys {V = Thousandths} (("n2", num 30) ∷ ("n3", num 5) ∷ []))))),
      two_targets,
    )
post_targets_request-refuses_example =
    post_targets_request-refuses (("n2", num 30) ∷ ("n3", num 5) ∷ []) two_targets "n3"
      (inr (inl refl)) refl

cluster_parses : (text : String) → IsCalm (cluster.parse_float text)
cluster_parses text = elim (Bool-cases (text == "2")) [
  | inl b ↦ rw b tt
  | inr b ↦ elim (Bool-cases (text == "0")) [ inl c ↦ rw (b, c) tt | inr c ↦ rw (b, c) tt ]
]

abbrev some_counts : Dict ℤ
some_counts = ("n1", pos 4) ∷ ("n2", pos 4) ∷ []

get_workloads-Answers_example :
    (answer : Option (Response Thousandths)) × ((get_workloads cluster (start tt)).0 ≡ ok answer)
    × Answers cluster some_counts some_pods answer
unfolding get_cpu_counts counts_from cpu_limit_of
get_workloads-Answers_example =
    get_workloads-Answers cluster some_counts cluster_parses (start tt) some_pods refl refl
      (tt, (tt, (tt, tt)))

post_targets_request-get_example :
    get_targets_response (post_targets_request (ok (("n2", num 30) ∷ [])) two_targets).1
    ≡ record { status = 200; body = Body.targets_list (("n1", num 80) ∷ ("n2", num 30) ∷ []) }
unfolding check_missing_nodes
post_targets_request-get_example =
    post_targets_request-get (("n2", num 30) ∷ []) two_targets (refl, tt) (refl, (refl, tt)) refl

abbrev config : Dict Thousandths
config = ("n1", num 80) ∷ ("n2", num 50) ∷ []

abbrev at_start : TargetExporter Thousandths ℤ
at_start = start_metrics config new_target_exporter

abbrev posted : TargetExporter Thousandths ℤ
posted = targets_posted (ok (("n2", num 30) ∷ [])) at_start

run : Run cluster (num 5 ∷ num 50 ∷ []) config false (round_of_schedulable cluster posted)
run =
    Run.then (Run.then Run.started (Step.post (ok (("n2", num 30) ∷ [])) at_start))
      (Step.schedule posted)

start_metrics_lem_example :
    start_metrics config (new_target_exporter {F = Thousandths} {Q = ℤ})
    ≡ record { targets = exported_targets config; schedulable = closed_flags config; log = [] }
start_metrics_lem_example = start_metrics_lem config (refl, (refl, tt))
