-- ===== src/Infrastructure.antt =====
-- pkg/infrastructure/routes.go and exporter.go: the handlers of the HTTP API. A handler gets what
-- BindJSON made of the request and returns the one response that it writes, or `none` where it
-- returns without writing one. Calls of the logger are left out.
pub mod Exporter
pub mod TargetHandlers
pub mod Targets
pub mod Readback
pub mod SwitchHandlers
pub mod Switching
pub mod Routes
pub mod NeverStarted
pub mod Creation
pub mod Listing
use target_exporter.Prelude.{
  ℕ, Bool, true, false, String, Option, none, some, List, [], ◌∷◌, ◌++◌, Dict, lookup, insert,
  contains_key, map, ◌==◌, if◌then◌else◌,
}
use target_exporter.Prelude.Int.{ℤ}
use target_exporter.Float.{Float64, num}
use target_exporter.Outcome.{
  Outcome, ok, err, panic, Action, pure, lift, bind_outcome, for_each, ◌>>=◌, ◌>>◌,
}
use target_exporter.World.{Quantity, Time, Phase, Pod, Env, St, within}
use target_exporter.Promclient.{
  NodeCpuSeries, get_cpu_usage_by_range_seconds, NodeCpuUsage, get_current_cpu_diff, get_cpu_counts,
}
use target_exporter.Kubeclient.{
  patch_cpu_limit, get_pods_in_namespace, get_pod_node_name, clear_completed_workloads,
  delete_pending_workload, percentage_to_resource_quantity, resource_quantity_to_percentage,
}
use target_exporter.Kubeclient.Builder.{get_min_cpu}
use target_exporter.Scheduling.{Target, set_target, get_target}
use target_exporter.Scheduling.SelfDriving.{cpu_limit_of}
use target_exporter.Scheduling.Orchestrator.{
  Settings, set_job_name, set_cpu_target, set_job_length, set_cpu_count, set_workload_type,
  set_start_date, set_min_cpu_limit, add_workload,
}

pub record Workload (F : Type 0) : Type 0 where
  pub name : String
  pub status : Phase
  pub submission_date : String
  pub node_name : String
  pub cpu_target : ℤ
  pub min_cpu_limit : F

pub record WorkloadRequest (F : Type 0) : Type 0 where
  pub pod_name : String
  pub cpu_target : ℤ
  pub cpu_count : ℤ
  pub job_length : ℤ
  pub workload_type : String
  pub min_cpu_limit : F
  pub scenario : Dict F

pub record JobScenarioSpawnRequest (F : Type 0) : Type 0 where
  pub job_name : String
  pub job_length : ℤ
  pub job_target : ℤ
  pub workers_count : ℤ
  pub start_date : Time
  pub min_cpu_limit : F

pub data Body (F : Type 0) : Type 0 where
  error : String → Body F
  nodes_missing : List String → Body F
  success : Body F
  workloads_list : List (Workload F) → Body F
  targets_list : Dict F → Body F
  cpu_diff : List (NodeCpuUsage F) → Body F
  enabled : Bool → Body F
  cpu_usages : List (NodeCpuSeries F) → Body F

pub record Response (F : Type 0) : Type 0 where
  pub status : ℕ
  pub body : Body F

-- The one response of a handler: written when the handler ends by itself, or after a call of Start or
-- Stop, when that call returns. A call that never returns leaves the request without a response.
pub data Answer (F : Type 0) : Type 0 where
  at_once on_return : Option (Response F) → Answer F

module _ {F : Type 0} where
  abbrev pub reply : ℕ → Body F → Option (Response F)
  reply status body = some (record { status = status; body = body })

  abbrev pub server_error : String → Option (Response F)
  server_error e = reply 500 (Body.error e)

  abbrev pub silent : String → Option (Response F)
  silent e = none

module _ {F S A : Type 0} where
  -- `if err != nil { …; return }` after a call, and else the rest of the handler.
  abbrev pub answered :
      Outcome A
      → (String → Option (Response F))
      → (A → Action S (Option (Response F)))
      → Action S (Option (Response F))
  answered (ok a) bad k st = k a st
  answered (err e) bad k st = (ok (bad e), st)
  answered panic bad k st = (panic, st)

  abbrev pub answering :
      Action S A
      → (String → Option (Response F))
      → (A → Action S (Option (Response F)))
      → Action S (Option (Response F))
  answering m bad k st = answered (m st).0 bad k (m st).1

module _ {F Q : Type 0} ⦃f : Float64 F⦄ ⦃q : Quantity Q⦄ (env : Env F Q) where
  -- An error for a missing annotation is passed over, and the value is then 0.
  abbrev pub min_or_zero : Outcome F → Outcome F
  min_or_zero (ok x) = ok x
  min_or_zero (err e) = if e == "job min annotation not found" then ok (num 0) else err e
  min_or_zero panic = panic

  unfoldable pub workload_of : Dict ℤ → Pod Q → Outcome (Workload F)
  workload_of cpu_counts pod = bind_outcome (cpu_limit_of pod) λ limit.
      bind_outcome (min_or_zero (get_min_cpu env pod)) λ min_cpu_limit. ok (record {
        name = pod.name;
        status = pod.phase;
        submission_date = pod.created;
        node_name = pod.node_name;
        cpu_target = f.to_int (resource_quantity_to_percentage cpu_counts limit "");
        min_cpu_limit = min_cpu_limit;
      })

  unfoldable pub workloads_of : Dict ℤ → List (Pod Q) → Outcome (List (Workload F))
  workloads_of cpu_counts [] = ok []
  workloads_of cpu_counts (pod ∷ rest) =
      bind_outcome (workload_of cpu_counts pod)
        λ w. bind_outcome (workloads_of cpu_counts rest) λ ws. ok (w ∷ ws)

module _ {F Q S : Type 0} ⦃f : Float64 F⦄ ⦃q : Quantity Q⦄ (env : Env F Q) where
  unfoldable pub get_workloads : Action (St S Q) (Option (Response F))
  get_workloads = answering (get_pods_in_namespace env) server_error λ pods.
      answering (get_cpu_counts env) silent λ cpu_counts.
        answering (lift (workloads_of env cpu_counts pods)) server_error
          λ ws. pure (reply 200 (Body.workloads_list ws))

  abbrev done_or_silent : Bool → Action (St S Q) (Option (Response F))
  done_or_silent done = pure (if done then reply 200 Body.success else none)

  unfoldable pub delete_workloads_completed : Action (St S Q) (Option (Response F))
  delete_workloads_completed = answering (clear_completed_workloads env) server_error done_or_silent

  unfoldable pub delete_workloads_pending_last : Action (St S Q) (Option (Response F))
  delete_workloads_pending_last =
      answering (delete_pending_workload env) server_error done_or_silent

  unfoldable pub get_current_cpu_diff_response : Action (St S Q) (Option (Response F))
  get_current_cpu_diff_response =
      answering (get_current_cpu_diff env) server_error
        (λ diffs. pure (reply 200 (Body.cpu_diff diffs)))

  -- The texts of `start` and `end` in the query of the request.
  unfoldable pub get_cpu_usage_by_range_seconds_response :
      String → String → Action (St S Q) (Option (Response F))
  get_cpu_usage_by_range_seconds_response from until =
      answering (lift (env.parse_date from)) (λ e. reply 400 (Body.error e))
        λ start.
          answering (lift (env.parse_date until)) (λ e. reply 400 (Body.error e))
            λ end.
              answering (get_cpu_usage_by_range_seconds env start end) server_error
                (λ usages. pure (reply 200 (Body.cpu_usages usages)))

  unfoldable pub post_workloads :
      Settings → Outcome (WorkloadRequest F) → Action (St S Q) (Option (Response F))
  post_workloads settings request =
      answering (lift request) (λ e. reply 400 (Body.error e))
        λ payload.
          answering
            (add_workload env settings (
              set_cpu_target payload.cpu_target
              ∷ set_job_length payload.job_length
              ∷ set_min_cpu_limit payload.min_cpu_limit
              ∷ set_cpu_count payload.cpu_count
              ∷ set_workload_type payload.workload_type
              ∷ []))
            server_error λ _. pure (reply 200 Body.success)

  unfoldable pub patch_workload :
      Outcome (WorkloadRequest F) → Action (St S Q) (Option (Response F))
  patch_workload request =
      answering (lift request) (λ e. reply 400 (Body.error e))
        λ payload.
          if payload.pod_name == ""
          then pure (reply 400 (Body.error "podName must be specified"))
          else answering (get_pod_node_name env payload.pod_name) server_error λ node.
            if node == ""
            then pure (
                reply 400
                  (Body.error "cannot set CPU limit for a pod that is not in Running state"))
            else answering (get_cpu_counts env) silent λ cpu_counts.
              answering
                (patch_cpu_limit env
                  (percentage_to_resource_quantity cpu_counts (f.of_int payload.cpu_target) node)
                  payload.pod_name)
                server_error λ _. pure none

  -- The loop of postJobScenario, which writes no response at its end.
  unfoldable pub spawn_scenario :
      Settings → List (JobScenarioSpawnRequest F) → Action (St S Q) (Option (Response F))
  spawn_scenario settings [] st = (ok none, st)
  spawn_scenario settings (job ∷ rest) st =
      answering
        (add_workload env settings (
          set_job_name job.job_name
          ∷ set_job_length job.job_length
          ∷ set_cpu_target job.job_target
          ∷ set_cpu_count job.workers_count
          ∷ set_start_date job.start_date
          ∷ set_min_cpu_limit job.min_cpu_limit
          ∷ []))
        server_error (λ _. spawn_scenario settings rest) st

  unfoldable pub post_job_scenario :
      Settings → Outcome (List (JobScenarioSpawnRequest F)) → Action (St S Q) (Option (Response F))
  post_job_scenario settings request =
      answering (lift request) (λ e. reply 400 (Body.error e)) (spawn_scenario settings)
