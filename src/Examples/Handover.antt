-- ===== src/Examples/Handover.antt =====
-- The theorems on the commands of a strategy, applied to short executions.
use target_exporter.Prelude.{◌≡◌, refl, true, false, [], ◌∷◌}
use target_exporter.Scheduling.Strategy.{
  Command, BaseConcurrentStrategy, new_base_concurrent_strategy, take_lock, announce, hand_over,
  obey, Label, Step, Exec,
}
use target_exporter.Float.{Thousandths}
use target_exporter.Outcome.{ok}
use target_exporter.Scheduling.Strategy.Refinement.{SwitchExec, is_on, Exec-SwitchExec}
use target_exporter.Scheduling.Orchestrator.Forwarding.{Strategies}
use target_exporter.Infrastructure.{Body, reply}
use target_exporter.Infrastructure.NeverStarted.{Blocks, put-Blocks}
use target_exporter.Infrastructure.SwitchHandlers.{Controls}
use target_exporter.Infrastructure.Switching.{Name, strategy_of, put, get, get-last_handed}

-- A call of `c` on a new strategy, up to the channel.
abbrev asked : Command → BaseConcurrentStrategy
asked c = record new_base_concurrent_strategy { waiting = c ∷ [] }

abbrev locked : Command → BaseConcurrentStrategy
locked c = take_lock c [] (asked c)

abbrev sent : Command → BaseConcurrentStrategy
sent c = announce c [] (locked c)

calls :
    (c : Command) → Exec new_base_concurrent_strategy (Label.quiet ∷ Label.called c ∷ []) (locked c)
calls c =
    Exec.next (Exec.next Exec.here (Step.call new_base_concurrent_strategy c))
      (Step.lock (asked c) c [] [] refl refl)

abbrev running : BaseConcurrentStrategy
running = obey Command.start (hand_over Command.start [] (sent Command.start))

starts :
    Exec new_base_concurrent_strategy
      (Label.quiet
        ∷ Label.handed Command.start
        ∷ Label.quiet
        ∷ Label.quiet
        ∷ Label.called Command.start
        ∷ [])
      running
unfolding take_lock announce hand_over obey
starts =
    Exec.next
      (Exec.next
        (Exec.next (calls Command.start) (Step.enter (locked Command.start) Command.start [] refl))
        (Step.receive (sent Command.start) Command.start [] refl refl))
      (Step.set (hand_over Command.start [] (sent Command.start)) Command.start refl)

Exec-SwitchExec_example :
    SwitchExec false
      (Label.quiet
        ∷ Label.handed Command.start
        ∷ Label.quiet
        ∷ Label.quiet
        ∷ Label.called Command.start
        ∷ [])
      (is_on running)
Exec-SwitchExec_example = Exec-SwitchExec starts

abbrev strategies : Strategies
strategies = record {
  self_driving = new_base_concurrent_strategy;
  schedulable = running;
  tawa = new_base_concurrent_strategy;
  server_on_off = running;
  reduce_targets = new_base_concurrent_strategy;
}

abbrev controls : Controls
controls = record { o = strategies; automatic_job_spawn = new_base_concurrent_strategy }

get-last_handed_example :
    get {F = Thousandths} Name.schedulable controls ≡ reply 200 (Body.enabled true)
unfolding obey
get-last_handed_example = get-last_handed Name.schedulable controls _ starts tt

put-Blocks_example : Blocks (
    strategy_of Name.automatic_job_spawn
      (put {F = Thousandths} Name.automatic_job_spawn (ok false) controls).1)
put-Blocks_example = put-Blocks Thousandths Name.automatic_job_spawn controls refl
