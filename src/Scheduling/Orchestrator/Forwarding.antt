-- ===== src/Scheduling/Orchestrator/Forwarding.antt =====
-- The strategies of the orchestrator: NewOrchestrator, and the methods of orchestration.go that start
-- and stop them. A call of Start or Stop begins with the caller at the mutex; what follows are steps
-- of the strategy.
use target_exporter.Prelude.{Bool, [], ◌∷◌}
use target_exporter.Scheduling.Strategy.{
  Command, BaseConcurrentStrategy, new_base_concurrent_strategy, take_lock, announce, hand_over,
}

-- The strategies that the orchestrator holds.
pub record Strategies : Type 0 where
  pub self_driving : BaseConcurrentStrategy
  pub schedulable : BaseConcurrentStrategy
  pub tawa : BaseConcurrentStrategy
  pub server_on_off : BaseConcurrentStrategy
  pub reduce_targets : BaseConcurrentStrategy

-- A caller of Start or Stop arrives.
unfoldable pub arrive : Command → BaseConcurrentStrategy → BaseConcurrentStrategy
arrive c s = record s { waiting = c ∷ s.waiting }

-- A call of Start of a new strategy has returned: its goroutine has taken the command.
unfoldable pub started : BaseConcurrentStrategy
started =
    hand_over Command.start []
      (announce Command.start [] (take_lock Command.start [] new_base_concurrent_strategy))

-- NewOrchestrator, with the strategy that main.go has started before: it starts the schedulable
-- strategy. The goroutine of CheckStartJobs is left out.
unfoldable pub new_orchestrator : BaseConcurrentStrategy → Strategies
new_orchestrator server_on_off = record {
  self_driving = new_base_concurrent_strategy;
  schedulable = started;
  tawa = new_base_concurrent_strategy;
  server_on_off = server_on_off;
  reduce_targets = new_base_concurrent_strategy;
}

unfoldable pub start_self_driving : Strategies → Strategies
start_self_driving o = record o { self_driving = arrive Command.start o.self_driving }

unfoldable pub stop_self_driving : Strategies → Strategies
stop_self_driving o = record o { self_driving = arrive Command.stop o.self_driving }

unfoldable pub is_self_driving_enabled : Strategies → Bool
is_self_driving_enabled o = o.self_driving.is_running

unfoldable pub start_schedulable : Strategies → Strategies
start_schedulable o = record o { schedulable = arrive Command.start o.schedulable }

unfoldable pub stop_schedulable : Strategies → Strategies
stop_schedulable o = record o { schedulable = arrive Command.stop o.schedulable }

unfoldable pub is_schedulable_enabled : Strategies → Bool
is_schedulable_enabled o = o.schedulable.is_running

unfoldable pub start_tawa : Strategies → Strategies
start_tawa o = record o { tawa = arrive Command.start o.tawa }

unfoldable pub stop_tawa : Strategies → Strategies
stop_tawa o = record o { tawa = arrive Command.stop o.tawa }

unfoldable pub is_tawa_enabled : Strategies → Bool
is_tawa_enabled o = o.tawa.is_running

unfoldable pub start_server_on_off : Strategies → Strategies
start_server_on_off o = record o { server_on_off = arrive Command.start o.server_on_off }

unfoldable pub stop_server_on_off : Strategies → Strategies
stop_server_on_off o = record o { server_on_off = arrive Command.stop o.server_on_off }

unfoldable pub is_server_on_off_enabled : Strategies → Bool
is_server_on_off_enabled o = o.server_on_off.is_running

unfoldable pub start_reduce_targets : Strategies → Strategies
start_reduce_targets o = record o { reduce_targets = arrive Command.start o.reduce_targets }

unfoldable pub stop_reduce_targets : Strategies → Strategies
stop_reduce_targets o = record o { reduce_targets = arrive Command.stop o.reduce_targets }

unfoldable pub is_reduce_targets_enabled : Strategies → Bool
is_reduce_targets_enabled o = o.reduce_targets.is_running

-- The methods of the automatic job spawn, in spawn.go, pass the call on to its own strategy.
unfoldable pub start_automatic_job_spawn : BaseConcurrentStrategy → BaseConcurrentStrategy
start_automatic_job_spawn s = arrive Command.start s

unfoldable pub stop_automatic_job_spawn : BaseConcurrentStrategy → BaseConcurrentStrategy
stop_automatic_job_spawn s = arrive Command.stop s

unfoldable pub is_automatic_job_spawn_enabled : BaseConcurrentStrategy → Bool
is_automatic_job_spawn_enabled s = s.is_running
