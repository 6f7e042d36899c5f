-- ===== src/System/Budget.antt =====
-- How many jobs the whole program creates at most.
use target_exporter.Prelude.{◌≡◌, refl, ℕ, ◌≤◌, List, Dict, arith}
use target_exporter.Float.{Float64}
use target_exporter.World.{Quantity}
use target_exporter.Scheduling.Orchestrator.{check_start_jobs}
use target_exporter.Scheduling.Orchestrator.Workload.{creations}
use target_exporter.Serverswitch.{IpmiServerSwitch}
use target_exporter.Infrastructure.Routes.{Handler, Input}
use target_exporter.Infrastructure.Exporter.{start_metrics, schedulable_stopped}
use target_exporter.System.{System, Setup, calling, new_system, handle}
use target_exporter.System.Running.{Act, Step, Run}
use target_exporter.System.Powers.{Kind, reads_and}
use target_exporter.System.Blame.{start_jobs-Adds}
use target_exporter.System.Creating.{
  budget, budgets, idle, handle-creations, IsWithin, round_of-creations,
}

module _ {F Q : Type 0} ⦃f : Float64 F⦄ ⦃q : Quantity Q⦄ (setup : Setup F Q) where
  handle-spawn :
      (h : Handler) (input : Input F) (s : System F Q) → (handle setup h input s).1.spawn ≡ s.spawn
  unfolding handle
  handle-spawn Handler.get_targets input s = refl
  handle-spawn Handler.post_targets input s = refl
  handle-spawn Handler.get_workloads input s = refl
  handle-spawn Handler.post_workloads input s = refl
  handle-spawn Handler.patch_workload input s = refl
  handle-spawn Handler.delete_completed input s = refl
  handle-spawn Handler.delete_pending_last input s = refl
  handle-spawn Handler.get_cpu_usage input s = refl
  handle-spawn Handler.get_cpu_diff input s = refl
  handle-spawn Handler.post_job_scenario input s = refl
  handle-spawn (Handler.get_switch k) input s = refl
  handle-spawn (Handler.put_switch k) input s = refl

  Step-IsWithin :
      {s t : System F Q} {a : Act F}
      → Step setup s a t
      → s.spawn.spawn_count ≤ 4
      → IsWithin (creations s.exporter.log) (budget a) t
  unfolding schedulable_stopped
  Step-IsWithin {s} (Step.handle_request h input) c =
      (handle-creations setup h input s, rw (handle-spawn h input s) c)
  Step-IsWithin {s} (Step.move k l t inner step) c = (omega arith, c)
  Step-IsWithin {s} (Step.reconcile k t step over) c = round_of-creations setup k s c
  Step-IsWithin {s} Step.start_jobs c = (
    idle setup (reads_and Kind.resume) s.exporter.log (calling (check_start_jobs setup.env) s).1
        (λ i. ground arith) (start_jobs-Adds setup s),
    c,
  )
  Step-IsWithin {s} (Step.mark n e) c = (omega arith, c)

  -- In every run of the whole program, the jobs that have been created are at most one for each POST of
  -- a workload, one for each entry of a POST of a job scenario, and one for each round of the automatic
  -- job spawn, also where the creation fails; and the counter of the automatic job spawn is at most 4.
  pub Run-IsWithin :
      (config : Dict F) (switches : Dict IpmiServerSwitch) (now : ℕ) {s : System F Q}
      {acts : List (Act F)}
      → Run setup (new_system config switches now) acts s
      → IsWithin 0 (budgets acts) s
  unfolding new_system start_metrics
  Run-IsWithin config switches now Run.here = (omega arith, omega arith)
  Run-IsWithin config switches now (Run.next before up step) =
      let (bound, counter) = Run-IsWithin config switches now before in
      let (created, counter') = Step-IsWithin step counter in
      (omega (arith, bound, created), counter')
