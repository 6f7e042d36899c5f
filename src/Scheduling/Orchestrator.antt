-- ===== src/Scheduling/Orchestrator.antt =====
-- pkg/scheduling/orchestration.go: the options of a workload, AddWorkload, and the rounds of
-- CheckStartJobs.
pub mod Workload
pub mod Starting
pub mod Forwarding
use target_exporter.Prelude.{
  ℕ, Bool, true, false, not, String, Option, none, some, List, [], ◌∷◌, ◌&&◌, ◌||◌, Dict, lookup,
  insert, ltb, ◌==◌, if◌then◌else◌,
}
use target_exporter.Prelude.Int.{ℤ, pos}
use target_exporter.Float.{Float64, num, gt}
use target_exporter.Outcome.{Outcome, ok, err, panic, Action, ◌>>=◌, ◌>>◌, pure, lift, for_each}
use target_exporter.World.{Quantity, Time, Job, Event, Env, St, call, observe}
use target_exporter.Promclient.{
  get_current_energy_consumption, get_cpu_counts, get_node_cpu_diff, text_or_empty,
}
use target_exporter.Pyzhm.{predict}
use target_exporter.Kubeclient.{
  percentage_to_resource_quantity, spawn_new_workload, get_suspended_jobs, start_suspended_job,
}
use target_exporter.Kubeclient.Builder.{
  StressJob, new_stress_job, with_name, with_cpu_count, with_cpu_limit, with_min_cpu_limit,
  with_length, with_workload_type, with_start_date, with_node_selector, build, minutes_to_duration,
  job_start_date_annotation,
}

pub record WorkloadSpawnOptions (F : Type 0) : Type 0 where
  pub job_name : String
  pub cpu_target : ℤ
  pub job_length : ℤ  -- in minutes
  pub cpu_count : ℤ
  pub workload_type : String
  pub working_scenario : Dict F  -- nil and empty are treated alike
  pub start_date : Time
  pub min_cpu_limit : F

-- WorkloadSpawnOption: the setters.
abbrev pub WorkloadSpawnOption : Type 0 → Type 0
WorkloadSpawnOption F = WorkloadSpawnOptions F → WorkloadSpawnOptions F

module _ {F : Type 0} where
  abbrev pub set_job_name : String → WorkloadSpawnOption F
  set_job_name x o = record o { job_name = x }

  abbrev pub set_cpu_target : ℤ → WorkloadSpawnOption F
  set_cpu_target x o = record o { cpu_target = x }

  abbrev pub set_job_length : ℤ → WorkloadSpawnOption F
  set_job_length x o = record o { job_length = x }

  abbrev pub set_cpu_count : ℤ → WorkloadSpawnOption F
  set_cpu_count x o = record o { cpu_count = x }

  abbrev pub set_workload_type : String → WorkloadSpawnOption F
  set_workload_type x o = record o { workload_type = x }

  abbrev pub set_working_scenario : Dict F → WorkloadSpawnOption F
  set_working_scenario x o = record o { working_scenario = x }

  abbrev pub set_start_date : Time → WorkloadSpawnOption F
  set_start_date x o = record o { start_date = x }

  abbrev pub set_min_cpu_limit : F → WorkloadSpawnOption F
  set_min_cpu_limit x o = record o { min_cpu_limit = x }

  unfoldable pub apply_options :
      List (WorkloadSpawnOption F) → WorkloadSpawnOptions F → WorkloadSpawnOptions F
  apply_options [] o = o
  apply_options (setter ∷ rest) o = apply_options rest (setter o)

abbrev pub default_options : {F : Type 0} ⦃f : Float64 F⦄ → WorkloadSpawnOptions F
default_options = record {
  job_name = "";
  cpu_target = pos 0;
  job_length = pos 0;
  cpu_count = pos 0;
  workload_type = "";
  working_scenario = [];
  start_date = 0;
  min_cpu_limit = num 0;
}

-- The fields that AddWorkload reads: is the tawa strategy running, the node whose CPU count stands for
-- all (the first of a range over the targets, or the empty text), and the node names and the address of PyZHM.
pub record Settings : Type 0 where
  pub tawa_enabled : Bool
  pub dummy : String
  pub pyzhm_node_mappings : Dict String
  pub pyzhm_address : String

module _ {F Q : Type 0} ⦃f : Float64 F⦄ ⦃q : Quantity Q⦄ where
  -- The builder calls of AddWorkload.
  unfoldable pub workload_job : WorkloadSpawnOptions F → Q → StressJob F Q
  workload_job o cpu_limit = with_start_date o.start_date (
      with_workload_type o.workload_type (
        with_length (minutes_to_duration o.job_length) (
          with_min_cpu_limit o.min_cpu_limit (
            with_cpu_limit cpu_limit
              (with_cpu_count o.cpu_count (with_name o.job_name new_stress_job))))))

module _ {F Q S : Type 0} ⦃f : Float64 F⦄ ⦃q : Quantity Q⦄ (env : Env F Q) where
  -- The scenario of the request, or the energy consumption that Prometheus reports.
  unfoldable pub energy_consumption : Dict F → Action (St S Q) (Dict F)
  energy_consumption [] = get_current_energy_consumption env
  energy_consumption (e ∷ rest) = pure (e ∷ rest)

  -- The tawa branch: the predicted node is selected if it is below its target.
  unfoldable pub choose_node :
      Settings → WorkloadSpawnOptions F → Q → StressJob F Q → Action (St S Q) (StressJob F Q)
  choose_node settings o core_count job = do
    scenario ← energy_consumption o.working_scenario
    assignments ←
        predict env settings.pyzhm_address scenario (("job1", f.of_int (q.value core_count)) ∷ [])
    let node =
        text_or_empty
          (lookup (text_or_empty (lookup "job1" assignments)) settings.pyzhm_node_mappings)
    diff ← get_node_cpu_diff env node
    pure (if gt diff (num 0) then with_node_selector node job else job)

  unfoldable pub add_options : Settings → WorkloadSpawnOptions F → Action (St S Q) (Unit {0})
  add_options settings o = do
    counts ← get_cpu_counts env
    let cpu_target = percentage_to_resource_quantity counts (f.of_int o.cpu_target) settings.dummy
    job ←
        (if settings.tawa_enabled
          then choose_node settings o cpu_target (workload_job o cpu_target)
          else pure (workload_job o cpu_target))
    built ← build env job
    spawn_new_workload env built

  unfoldable pub add_workload : Settings → List (WorkloadSpawnOption F) → Action (St S Q) (Unit {0})
  add_workload settings options = add_options settings (apply_options options default_options)

-- time.Parse returns the zero time with its error, which is only logged.
abbrev pub parsed_date : Outcome Time → Time
parsed_date (ok t) = t
parsed_date (err e) = 0
parsed_date panic = 0

-- The error of the listing is logged, and the list is then nil.
abbrev pub listed : Outcome (List Job) → Outcome (List Job)
listed (ok jobs) = ok jobs
listed (err e) = ok []
listed panic = panic

-- The error of the start is only logged.
abbrev pub logged_outcome : Outcome (Unit {0}) → Outcome (Unit {0})
logged_outcome (ok a) = ok a
logged_outcome (err e) = ok tt
logged_outcome panic = panic

-- A round of CheckStartJobs.
module _ {F Q S : Type 0} (env : Env F Q) where
  abbrev logged : Action (St S Q) (Unit {0}) → Action (St S Q) (Unit {0})
  logged m st = (logged_outcome (m st).0, (m st).1)

  unfoldable pub check_job : Job → Action (St S Q) (Unit {0})
  check_job job st =
      let annotation = text_or_empty (lookup job_start_date_annotation job.annotations) in
      if annotation == ""
      then (ok tt, st)
      else if ltb (parsed_date (env.parse_date annotation)) (env.now st.log)
      then logged (start_suspended_job env job.name) st
      else (ok tt, st)

  unfoldable pub check_start_jobs : Action (St S Q) (Unit {0})
  check_start_jobs = do
    jobs ← (λ st. (listed (get_suspended_jobs env st).0, (get_suspended_jobs env st).1))
    for_each jobs check_job
