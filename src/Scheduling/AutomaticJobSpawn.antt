-- ===== src/Scheduling/AutomaticJobSpawn.antt =====
-- pkg/scheduling/spawn.go: a job is added where a node has room, in bursts with a pause between them.
-- The clock is read once per turn of the loop, as no call leaves the process between its readings;
-- the pause at the end of a round is left out.
pub mod Burst
use target_exporter.Prelude.{
  ℕ, suc, ◌+◌, Bool, true, false, String, Option, none, some, List, [], ◌∷◌, lookup, ltb, leb, ◌&&◌,
  if◌then◌else◌,
}
use target_exporter.Prelude.Int.{ℤ, pos}
use target_exporter.Float.{Float64, num, ge}
use target_exporter.Outcome.{Outcome, ok, err, panic, Action, ◌>>=◌, ◌>>◌, modify}
use target_exporter.World.{Quantity, Time, Duration, Env, St, within}
use target_exporter.Promclient.{NodeCpuUsage, get_cpu_counts, get_current_cpu_diff}
use target_exporter.Kubeclient.{int_or_zero}
use target_exporter.Scheduling.Orchestrator.{
  Settings, set_cpu_target, set_job_length, set_cpu_count, set_working_scenario, add_workload,
}

abbrev spawn_job_cpu_percentage : ℤ
spawn_job_cpu_percentage = pos 10

abbrev pub max_burst_per_node : ℕ
max_burst_per_node = 4

abbrev pub burst_reset_timeout : Duration
burst_reset_timeout = 60_000_000_000

pub record AutomaticJobSpawn : Type 0 where
  pub reset_time : Time
  pub spawn_count : ℕ

abbrev pub new_automatic_job_spawn : Time → AutomaticJobSpawn
new_automatic_job_spawn now = record { reset_time = now; spawn_count = 0 }

unfoldable pub should_reset : Time → Time → ℕ → Bool
should_reset now reset_time spawn_count = ltb reset_time now && leb max_burst_per_node spawn_count

module _ {F : Type 0} ⦃f : Float64 F⦄ where
  unfoldable pub should_spawn : Time → F → ℕ → Time → Bool
  should_spawn now diff spawn_count reset_time =
      ge diff (num 0) && ltb spawn_count max_burst_per_node && ltb reset_time now

-- `v.Data[len(v.Data)-1].Usage`
unfoldable pub last_usage : {F : Type 0} → List F → Option F
last_usage [] = none
last_usage (x ∷ []) = some x
last_usage (x ∷ y ∷ rest) = last_usage (y ∷ rest)

unfoldable pub reset_at : Time → AutomaticJobSpawn → AutomaticJobSpawn
reset_at now t =
    if should_reset now t.reset_time t.spawn_count
    then record t { reset_time = now + burst_reset_timeout; spawn_count = 0 }
    else t

abbrev pub count_up : AutomaticJobSpawn → AutomaticJobSpawn
count_up t = record t { spawn_count = suc t.spawn_count }

module _ {F Q : Type 0} ⦃f : Float64 F⦄ ⦃q : Quantity Q⦄ (env : Env F Q) (settings : Settings) where
  unfoldable pub spawn_job : String → Action (St AutomaticJobSpawn Q) (Unit {0})
  spawn_job node = do
    counts ← get_cpu_counts env
    add_workload env settings (
        set_cpu_target spawn_job_cpu_percentage
        ∷ set_job_length (pos 5)
        ∷ set_cpu_count (int_or_zero (lookup node counts))
        ∷ set_working_scenario []
        ∷ [])

  -- The loop, which ends after the first job.
  unfoldable pub visit_diffs : List (NodeCpuUsage F) → Action (St AutomaticJobSpawn Q) (Unit {0})
  visit_diffs [] st = (ok tt, st)
  visit_diffs (v ∷ rest) st =
      let now = env.now st.log in
      let st' = record st { own = reset_at now st.own } in
      elim (last_usage v.usages) [
        | none ↦ (panic, st')
        | some x ↦ elim (should_spawn now x st'.own.spawn_count st'.own.reset_time) [
          | true ↦ (spawn_job v.node_name >> within (modify count_up)) st'
          | false ↦ visit_diffs rest st'
        ]
      ]

  unfoldable pub reconcile : Action (St AutomaticJobSpawn Q) (Unit {0})
  reconcile = do diffs ← get_current_cpu_diff env; visit_diffs diffs
