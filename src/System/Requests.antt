-- ===== src/System/Requests.antt =====
-- Which calls the handlers make.
use target_exporter.Prelude.{
  ◌≡◌, refl, Bool, Bool-cases, inl, inr, String, Option, none, List, [], ◌∷◌, ◌++◌, Dict, All, ◌==◌,
  if◌then◌else◌,
}
use target_exporter.Float.{Float64}
use target_exporter.Outcome.{ok, err, panic, Outcome, Action, lift}
use target_exporter.World.{Quantity, Event, Log, Env, St}
use target_exporter.World.Calls.{Calls, later-Calls, call-Calls, stay-Calls, lift-Calls, >>=-Calls}
use target_exporter.Promclient.{get_current_cpu_diff, get_cpu_counts}
use target_exporter.Kubeclient.{patch_cpu_limit, get_pods_in_namespace}
use target_exporter.Kubeclient.Builder.{StressJob, build}
use target_exporter.Scheduling.Orchestrator.{
  Settings, WorkloadSpawnOptions, WorkloadSpawnOption, energy_consumption, choose_node, add_options,
  add_workload,
}
use target_exporter.Infrastructure.{
  Response, WorkloadRequest, JobScenarioSpawnRequest, answered, answering, get_workloads,
  delete_workloads_completed, delete_workloads_pending_last, get_current_cpu_diff_response,
  get_cpu_usage_by_range_seconds_response, post_workloads, patch_workload, spawn_scenario,
  post_job_scenario,
}
use target_exporter.System.Powers.{Kind, kind}
use target_exporter.System.Clients.{
  get_cpu_counts-Calls, get_current_cpu_diff-Calls, get_node_cpu_diff-Calls,
  get_current_energy_consumption-Calls, get_cpu_usage_by_range_seconds-Calls,
  get_pods_in_namespace-Calls, get_pod_node_name-Calls, predict-Calls,
  clear_completed_workloads-Calls, delete_pending_workload-Calls, spawn_new_workload-Calls,
}

module _ {S Q A : Type 0} (P : Event Q → Type 0) where
  pub if-Calls :
      (b : Bool) (m n : Action (St S Q) A) → Calls P m → Calls P n → Calls P (if b then m else n)
  if-Calls b m n hm hn = elim (Bool-cases b) [ inl e ↦ rw e hm | inr e ↦ rw e hn ]

module _ {F S Q A : Type 0} (P : Event Q → Type 0) where
  answered-new :
      (o : Outcome A) (bad : String → Option (Response F))
      (k : A → Action (St S Q) (Option (Response F))) (before new : Log Q) (st : St S Q)
      → st.log ≡ before ++ new
      → All P new
      → ((a : A) → Calls P (k a))
      → (more : Log Q) × ((answered o bad k st).1.log ≡ before ++ more) × All P more
  answered-new (ok a) bad k before new st e h hk = later-Calls P (k a) before new st e h (hk a)
  answered-new (err t) bad k before new st e h hk = (new, e, h)
  answered-new panic bad k before new st e h hk = (new, e, h)

  pub answering-Calls :
      (m : Action (St S Q) A) (bad : String → Option (Response F))
      (k : A → Action (St S Q) (Option (Response F)))
      → Calls P m
      → ((a : A) → Calls P (k a))
      → Calls P (answering m bad k)
  answering-Calls m bad k hm hk = record {
    calls = λ st.
        let (new, same, fine) = hm.calls st in
        answered-new (m st).0 bad k st.log new (m st).1 same fine hk;
  }

module _ {F Q : Type 0} ⦃f : Float64 F⦄ ⦃q : Quantity Q⦄ (env : Env F Q) (P : Event Q → Type 0)
    (read : (e : Event Q) → kind e ≡ Kind.ask → P e) where
  abbrev Own : Type 0
  Own = Unit {0}

  pub get_workloads-Calls : Calls {S = Own} P (get_workloads env)
  unfolding get_workloads
  get_workloads-Calls =
      answering-Calls P (get_pods_in_namespace env) _ _ (get_pods_in_namespace-Calls Own env P read)
        λ pods.
          answering-Calls P (get_cpu_counts env) _ _ (get_cpu_counts-Calls Own env P read)
            λ counts. answering-Calls P (lift _) _ _ (lift-Calls P _) (λ ws. lift-Calls P (ok _))

  pub get_current_cpu_diff_response-Calls : Calls {S = Own} P (get_current_cpu_diff_response env)
  unfolding get_current_cpu_diff_response
  get_current_cpu_diff_response-Calls =
      answering-Calls P (get_current_cpu_diff env) _ _ (get_current_cpu_diff-Calls Own env P read)
        (λ diffs. lift-Calls P (ok _))

  pub get_cpu_usage_by_range_seconds_response-Calls :
      (from until : String)
      → Calls {S = Own} P (get_cpu_usage_by_range_seconds_response env from until)
  unfolding get_cpu_usage_by_range_seconds_response
  get_cpu_usage_by_range_seconds_response-Calls from until =
      answering-Calls P (lift (env.parse_date from)) _ _ (lift-Calls P _) λ start.
        answering-Calls P (lift (env.parse_date until)) _ _ (lift-Calls P _) λ end.
          answering-Calls P _ _ _ (get_cpu_usage_by_range_seconds-Calls Own env P read start end)
            (λ usages. lift-Calls P (ok _))

  pub delete_workloads_completed-Calls :
      ((e : Event Q) → kind e ≡ Kind.delete → P e)
      → Calls {S = Own} P (delete_workloads_completed env)
  unfolding delete_workloads_completed
  delete_workloads_completed-Calls delete =
      answering-Calls P _ _ _ (clear_completed_workloads-Calls Own env P read delete)
        (λ done. lift-Calls P (ok _))

  pub delete_workloads_pending_last-Calls :
      ((e : Event Q) → kind e ≡ Kind.delete → P e)
      → Calls {S = Own} P (delete_workloads_pending_last env)
  unfolding delete_workloads_pending_last
  delete_workloads_pending_last-Calls delete =
      answering-Calls P _ _ _ (delete_pending_workload-Calls Own env P read delete)
        (λ done. lift-Calls P (ok _))

  pub patch_workload-Calls :
      (request : Outcome (WorkloadRequest F))
      → ((e : Event Q) → kind e ≡ Kind.patch → P e)
      → Calls {S = Own} P (patch_workload env request)
  unfolding patch_workload patch_cpu_limit
  patch_workload-Calls request patch =
      answering-Calls P (lift request) _ _ (lift-Calls P _) λ payload.
        if-Calls P (payload.pod_name == "") _ _ (lift-Calls P (ok _)) (
          answering-Calls P _ _ _ (get_pod_node_name-Calls Own env P read payload.pod_name) λ node.
            if-Calls P (node == "") _ _ (lift-Calls P (ok _)) (
              answering-Calls P _ _ _ (get_cpu_counts-Calls Own env P read) λ counts.
                answering-Calls P _ _ _ (call-Calls P _ env.acknowledge (patch _ refl))
                  (λ _. lift-Calls P (ok none))))

module _ {F Q : Type 0} ⦃f : Float64 F⦄ ⦃q : Quantity Q⦄ (S : Type 0) (env : Env F Q)
    (P : Event Q → Type 0) (read : (e : Event Q) → kind e ≡ Kind.ask → P e) where
  energy_consumption-Calls : (scenario : Dict F) → Calls {S = S} P (energy_consumption env scenario)
  unfolding energy_consumption
  energy_consumption-Calls [] = get_current_energy_consumption-Calls S env P read
  energy_consumption-Calls (e ∷ rest) = lift-Calls P (ok (e ∷ rest))

  choose_node-Calls :
      (settings : Settings) (o : WorkloadSpawnOptions F) (core_count : Q) (job : StressJob F Q)
      → Calls {S = S} P (choose_node env settings o core_count job)
  unfolding choose_node
  choose_node-Calls settings o core_count job =
      >>=-Calls P _ _ (energy_consumption-Calls o.working_scenario) λ scenario.
        >>=-Calls P _ _ (predict-Calls S env P read settings.pyzhm_address scenario _)
          λ assignments.
            >>=-Calls P _ _ (get_node_cpu_diff-Calls S env P read _) (λ diff. lift-Calls P (ok _))

  pub add_workload-Calls :
      (settings : Settings) (options : List (WorkloadSpawnOption F))
      → ((e : Event Q) → kind e ≡ Kind.create → P e)
      → Calls {S = S} P (add_workload env settings options)
  unfolding add_workload add_options build
  add_workload-Calls settings options create =
      >>=-Calls P _ _ (get_cpu_counts-Calls S env P read) λ counts.
        >>=-Calls P _ _
          (if-Calls P settings.tawa_enabled _ _ (choose_node-Calls settings _ _ _)
            (lift-Calls P (ok _)))
          λ job.
            >>=-Calls P (build env job) _ (stay-Calls P (build env job) (λ st. refl))
              (λ built. spawn_new_workload-Calls S env P create built)

module _ {F Q : Type 0} ⦃f : Float64 F⦄ ⦃q : Quantity Q⦄ (env : Env F Q) (settings : Settings)
    (P : Event Q → Type 0) (read : (e : Event Q) → kind e ≡ Kind.ask → P e)
    (create : (e : Event Q) → kind e ≡ Kind.create → P e) where
  pub post_workloads-Calls :
      (request : Outcome (WorkloadRequest F))
      → Calls {S = Unit {0}} P (post_workloads env settings request)
  unfolding post_workloads
  post_workloads-Calls request = answering-Calls P (lift request) _ _ (lift-Calls P _) λ payload.
      answering-Calls P _ _ _ (add_workload-Calls (Unit {0}) env P read settings _ create)
        (λ _. lift-Calls P (ok _))

  spawn_scenario-Calls :
      (jobs : List (JobScenarioSpawnRequest F))
      → Calls {S = Unit {0}} P (spawn_scenario env settings jobs)
  unfolding spawn_scenario
  spawn_scenario-Calls [] = lift-Calls P (ok none)
  spawn_scenario-Calls (job ∷ rest) =
      answering-Calls P _ _ _ (add_workload-Calls (Unit {0}) env P read settings _ create)
        (λ _. spawn_scenario-Calls rest)

  pub post_job_scenario-Calls :
      (request : Outcome (List (JobScenarioSpawnRequest F)))
      → Calls {S = Unit {0}} P (post_job_scenario env settings request)
  unfolding post_job_scenario
  post_job_scenario-Calls request =
      answering-Calls P (lift request) _ _ (lift-Calls P _) spawn_scenario-Calls
