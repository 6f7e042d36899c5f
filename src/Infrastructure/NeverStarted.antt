-- ===== src/Infrastructure/NeverStarted.antt =====
-- A PUT that switches off a strategy that was never started.
use target_exporter.Prelude.{◌≡◌, refl, sym, subst, ap, ◌∙◌, false, none, List, [], inl}
use target_exporter.Outcome.{ok}
use target_exporter.Scheduling.Strategy.{
  Command, BaseConcurrentStrategy, new_base_concurrent_strategy, take_lock, Label, Step, Exec,
}
use target_exporter.Scheduling.Strategy.Commands.{last_handed}
use target_exporter.Scheduling.Strategy.Blocking.{Exec-IsBlocked}
use target_exporter.Scheduling.Orchestrator.Forwarding.{arrive}
use target_exporter.Infrastructure.SwitchHandlers.{Controls}
use target_exporter.Infrastructure.Switching.{Name, strategy_of, put, put-arrive}

-- One step leads to a state from which the strategy takes no command any more.
pub record Blocks (s : BaseConcurrentStrategy) : Type 0 where
  pub blocked : BaseConcurrentStrategy
  pub step : Step s Label.quiet blocked
  pub never :
      (labels : List Label) (t : BaseConcurrentStrategy)
      → Exec blocked labels t
      → last_handed labels ≡ none

arrive-Blocks : Blocks (arrive Command.stop new_base_concurrent_strategy)
unfolding arrive take_lock
arrive-Blocks =
    let s = arrive Command.stop new_base_concurrent_strategy in
    record {
      blocked = take_lock Command.stop [] s;
      step = Step.lock s Command.stop [] [] refl refl;
      never = λ labels t steps.
          (Exec-IsBlocked (record { locked = refl; nobody = refl; place = inl (refl, refl) })
            steps).1;
    }

-- After a PUT with `enabled` false to a strategy that was never started, the caller may take the lock
-- at once, and then no execution of the strategy hands over a command any more, neither this Stop nor
-- the command of a later PUT.
pub put-Blocks :
    (F : Type 0) (k : Name) (o : Controls)
    → strategy_of k o ≡ new_base_concurrent_strategy
    → Blocks (strategy_of k (put {F = F} k (ok false) o).1)
put-Blocks F k o fresh =
    subst Blocks (sym (put-arrive F k Command.stop o ∙ ap (arrive Command.stop) fresh))
      arrive-Blocks
