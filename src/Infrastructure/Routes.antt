-- ===== src/Infrastructure/Routes.antt =====
-- The routes of StartApi in pkg/infrastructure/routes.go, and what the handlers get of a request.
use target_exporter.Prelude.{Bool, String, List, [], ◌∷◌, Dict}
use target_exporter.Outcome.{Outcome}
use target_exporter.Infrastructure.{WorkloadRequest, JobScenarioSpawnRequest}
use target_exporter.Infrastructure.Switching.{Name}

-- The handlers, where the twelve that switch a strategy or say whether it is on have its name.
pub data Handler : Type 0 where
  get_targets post_targets : Handler
  get_workloads post_workloads patch_workload : Handler
  delete_completed delete_pending_last : Handler
  get_cpu_usage get_cpu_diff : Handler
  get_switch put_switch : Name → Handler
  post_job_scenario : Handler

-- What gin reads from a request: BindJSON for each type of body, and the texts of `start` and `end`.
pub record Input (F : Type 0) : Type 0 where
  pub targets : Outcome (Dict F)
  pub workload : Outcome (WorkloadRequest F)
  pub scenario : Outcome (List (JobScenarioSpawnRequest F))
  pub enabled : Outcome Bool
  pub start : String
  pub end : String

pub record Route : Type 0 where
  pub method : String
  pub path : String
  pub handler : Handler

abbrev route : String → String → Handler → Route
route method path handler = record { method = method; path = path; handler = handler }

-- The group `v1`, with its prefix written out.
abbrev pub routes : List Route
routes =
    route "GET" "/api/v1/targets" Handler.get_targets
    ∷ route "POST" "/api/v1/targets" Handler.post_targets
    ∷ route "GET" "/api/v1/workloads" Handler.get_workloads
    ∷ route "POST" "/api/v1/workloads" Handler.post_workloads
    ∷ route "PATCH" "/api/v1/workload" Handler.patch_workload
    ∷ route "DELETE" "/api/v1/workloads/completed" Handler.delete_completed
    ∷ route "DELETE" "/api/v1/workloads/pending/last" Handler.delete_pending_last
    ∷ route "GET" "/api/v1/actualCpuUsageByRangeSeconds" Handler.get_cpu_usage
    ∷ route "GET" "/api/v1/actualCpuDiff" Handler.get_cpu_diff
    ∷ route "GET" "/api/v1/self-driving" (Handler.get_switch Name.self_driving)
    ∷ route "PUT" "/api/v1/self-driving" (Handler.put_switch Name.self_driving)
    ∷ route "GET" "/api/v1/tawa" (Handler.get_switch Name.tawa)
    ∷ route "PUT" "/api/v1/tawa" (Handler.put_switch Name.tawa)
    ∷ route "GET" "/api/v1/schedulable" (Handler.get_switch Name.schedulable)
    ∷ route "PUT" "/api/v1/schedulable" (Handler.put_switch Name.schedulable)
    ∷ route "GET" "/api/v1/automatic-job-spawn" (Handler.get_switch Name.automatic_job_spawn)
    ∷ route "PUT" "/api/v1/automatic-job-spawn" (Handler.put_switch Name.automatic_job_spawn)
    ∷ route "GET" "/api/v1/server-on-off" (Handler.get_switch Name.server_on_off)
    ∷ route "PUT" "/api/v1/server-on-off" (Handler.put_switch Name.server_on_off)
    ∷ route "GET" "/api/v1/reduce-targets" (Handler.get_switch Name.reduce_targets)
    ∷ route "PUT" "/api/v1/reduce-targets" (Handler.put_switch Name.reduce_targets)
    ∷ route "POST" "/api/v1/job-scenario" Handler.post_job_scenario
    ∷ []
