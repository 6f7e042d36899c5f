-- ===== src/System.antt =====
-- The running program after main.go has started it: the state of all its parts, with the handlers of
-- the HTTP API and the rounds of the strategies on it. `Running` has the steps and runs.
pub mod Running
pub mod Powers
pub mod Clients
pub mod Requests
pub mod Rounds
pub mod Blame
pub mod Prompting
pub mod Prompted
pub mod Orders
pub mod Maps
pub mod Whole
pub mod Creating
pub mod Budget
pub mod Serving
pub mod Served
pub mod Reading
pub mod Routed
use target_exporter.Prelude.{
  ℕ, suc, ◌≡◌, ◌≢◌, Bool, true, false, Option, none, some, List, [], ◌∷◌, Dict,
}
use target_exporter.Float.{Float64}
use target_exporter.Outcome.{Outcome, ok, err, panic, Action}
use target_exporter.World.{Quantity, Env, St}
use target_exporter.Scheduling.SchedulableStrategy
use target_exporter.Scheduling.ReduceTargets
use target_exporter.Scheduling.SelfDriving.{SkipItem}
use target_exporter.Scheduling.SelfDriving.Round
use target_exporter.Scheduling.AutomaticJobSpawn
use target_exporter.Scheduling.AutomaticJobSpawn.{AutomaticJobSpawn, new_automatic_job_spawn}
use target_exporter.Scheduling.ServerOnOff
use target_exporter.Scheduling.Tawa
use target_exporter.Scheduling.Strategy
use target_exporter.Scheduling.Strategy.{
  Command, BaseConcurrentStrategy, new_base_concurrent_strategy, Label,
}
use target_exporter.Scheduling.Orchestrator.{Settings, check_start_jobs}
use target_exporter.Scheduling.Orchestrator.Forwarding.{is_tawa_enabled}
use target_exporter.Serverswitch.{Ipmi, IpmiServerSwitch}
use target_exporter.Infrastructure.{
  Response, Answer, get_workloads, delete_workloads_completed, delete_workloads_pending_last,
  get_current_cpu_diff_response, get_cpu_usage_by_range_seconds_response, post_workloads,
  patch_workload, post_job_scenario,
}
use target_exporter.Infrastructure.TargetHandlers.{get_targets_response, post_targets_request}
use target_exporter.Infrastructure.SwitchHandlers.{Controls}
use target_exporter.Infrastructure.Switching.{Name, strategy_of, replaced, put, get}
use target_exporter.Infrastructure.Routes.{Handler, Input}
use target_exporter.Infrastructure.Exporter.{
  TargetExporter, new_target_exporter, start_metrics, schedulable_stopped, round_of_schedulable,
  round_of_reduce_targets, targets_posted,
}
use target_exporter.Startup.{init_orchestrator}

-- `stopping` counts the callers of SchedulableStrategy.Stop whose call of the base strategy's Stop has
-- returned, and that have not marked the nodes yet.
pub record System (F Q : Type 0) : Type 0 where
  pub exporter : TargetExporter F Q
  pub skip_list : List (SkipItem Q)
  pub spawn : AutomaticJobSpawn
  pub switches : Dict IpmiServerSwitch
  pub controls : Controls
  pub stopping : ℕ
  pub is_up : Bool

-- What never changes: the services, the configuration, and the fuel of a round's loops.
pub record Setup (F Q : Type 0) : Type 0 where
  pub env : Env F Q
  pub ipmi : Ipmi Q
  pub settings : Settings  -- whose `tawa_enabled` is read from the strategy
  pub setpoints : List F
  pub fuel : ℕ

abbrev new_controls : Controls
new_controls = record { o = init_orchestrator; automatic_job_spawn = new_base_concurrent_strategy }

module _ {F Q : Type 0} ⦃f : Float64 F⦄ where
  -- After main has set up all parts, with the switches that initServerOnOff has made, at the time at
  -- which NewAutomaticJobSpawn has read the clock.
  unfoldable pub new_system : Dict F → Dict IpmiServerSwitch → ℕ → System F Q
  new_system targets switches now = record {
    exporter = start_metrics targets new_target_exporter;
    skip_list = [];
    spawn = new_automatic_job_spawn now;
    switches = switches;
    controls = new_controls;
    stopping = 0;
    is_up = true;
  }

abbrev pub is_calm : {A : Type 0} → Outcome A → Bool
is_calm (ok a) = true
is_calm (err e) = true
is_calm panic = false

-- The fuel of the server on/off strategy says how often it tries to connect; `none` is the fuel's end.
abbrev done : Outcome (Option (Unit {0})) → Outcome (Unit {0})
done (ok ended) = ok tt
done (err e) = err e
done panic = panic

module _ {F Q A : Type 0} where
  -- An operation that only calls services.
  abbrev pub calling : Action (St (Unit {0}) Q) A → System F Q → Outcome A × System F Q
  calling m s =
      let (answer, st) = m (record { own = tt; log = s.exporter.log }) in
      (answer, record s { exporter = record s.exporter { log = st.log } })

-- The answer of a handler that writes its response itself.
abbrev pub ended : {F : Type 0} → Outcome (Option (Response F)) → Outcome (Answer F)
ended (ok response) = ok (Answer.at_once response)
ended (err e) = err e
ended panic = panic

module _ {F Q : Type 0} where
  abbrev answering_by :
      Action (St (Unit {0}) Q) (Option (Response F)) → Action (System F Q) (Answer F)
  answering_by m s = let (answer, s') = calling m s in (ended answer, s')

module _ {F Q : Type 0} where
  abbrev pub settings_of : Setup F Q → System F Q → Settings
  settings_of setup s = record setup.settings { tawa_enabled = is_tawa_enabled s.controls.o }

  abbrev pub with_strategy : Name → BaseConcurrentStrategy → System F Q → System F Q
  with_strategy k t s = record s { controls = replaced k t s.controls }

module _ {F Q : Type 0} ⦃f : Float64 F⦄ ⦃q : Quantity Q⦄ (setup : Setup F Q) where
  -- The handlers, each on the fields that it reads and changes.
  unfoldable pub handle : Handler → Input F → Action (System F Q) (Answer F)
  handle Handler.get_targets input s =
      (ok (Answer.at_once (some (get_targets_response s.exporter.targets))), s)
  handle Handler.post_targets input s = (
    ended (post_targets_request input.targets s.exporter.targets).0,
    record s { exporter = targets_posted input.targets s.exporter },
  )
  handle Handler.get_workloads input s = answering_by (get_workloads setup.env) s
  handle Handler.post_workloads input s =
      answering_by (post_workloads setup.env (settings_of setup s) input.workload) s
  handle Handler.patch_workload input s = answering_by (patch_workload setup.env input.workload) s
  handle Handler.delete_completed input s = answering_by (delete_workloads_completed setup.env) s
  handle Handler.delete_pending_last input s =
      answering_by (delete_workloads_pending_last setup.env) s
  handle Handler.get_cpu_usage input s =
      answering_by (get_cpu_usage_by_range_seconds_response setup.env input.start input.end) s
  handle Handler.get_cpu_diff input s = answering_by (get_current_cpu_diff_response setup.env) s
  handle (Handler.get_switch k) input s = (ok (Answer.at_once (get k s.controls)), s)
  handle (Handler.put_switch k) input s =
      let (answer, controls) = put k input.enabled s.controls in
      (answer, record s { controls = controls })
  handle Handler.post_job_scenario input s =
      answering_by (post_job_scenario setup.env (settings_of setup s) input.scenario) s

  -- The rounds of the strategies, with what Reconcile returns.
  unfoldable pub round_of : Name → Action (System F Q) (Unit {0})
  round_of Name.self_driving s =
      let (answer, st) =
        Round.reconcile setup.env s.exporter.targets
          (record { own = s.skip_list; log = s.exporter.log }) in
      (answer, record s { exporter = record s.exporter { log = st.log }; skip_list = st.own })
  round_of Name.schedulable s = (
    (SchedulableStrategy.reconcile setup.env
        (record { own = s.exporter.schedulable; log = s.exporter.log })).0,
    record s { exporter = round_of_schedulable setup.env s.exporter },
  )
  round_of Name.tawa s = Tawa.reconcile s
  round_of Name.server_on_off s =
      let (answer, st) =
        ServerOnOff.reconcile setup.env setup.ipmi setup.fuel
          (record { own = s.switches; log = s.exporter.log }) in
      (done answer, record s { exporter = record s.exporter { log = st.log }; switches = st.own })
  round_of Name.reduce_targets s = (
    (ReduceTargets.reconcile setup.env setup.setpoints
        (record { own = s.exporter.targets; log = s.exporter.log })).0,
    record s { exporter = round_of_reduce_targets setup.env setup.setpoints s.exporter },
  )
  round_of Name.automatic_job_spawn s =
      let (answer, st) =
        AutomaticJobSpawn.reconcile setup.env (settings_of setup s)
          (record { own = s.spawn; log = s.exporter.log }) in
      (answer, record s { exporter = record s.exporter { log = st.log }; spawn = st.own })
