-- ===== src/System/Running.antt =====
-- The steps of the program and its runs. The parts' steps follow each other in any order: a handler, a
-- round, and a round of the goroutine of CheckStartJobs are one step each, and the parts of Start and
-- Stop, which wait for each other, are steps of their own. A panic in a round ends the program; gin's
-- recovery keeps one in a handler from doing so.
use target_exporter.Prelude.{ℕ, suc, ◌≡◌, ◌≢◌, true, none, List, [], ◌∷◌}
use target_exporter.Float.{Float64}
use target_exporter.Outcome.{ok}
use target_exporter.World.{Quantity}
use target_exporter.Scheduling.ServerOnOff
use target_exporter.Scheduling.Strategy
use target_exporter.Scheduling.Strategy.{
  Command, BaseConcurrentStrategy, new_base_concurrent_strategy, Label,
}
use target_exporter.Scheduling.Orchestrator.{check_start_jobs}
use target_exporter.Infrastructure.Switching.{Name, strategy_of}
use target_exporter.Infrastructure.Routes.{Handler, Input}
use target_exporter.Infrastructure.Exporter.{schedulable_stopped}
use target_exporter.System.{System, Setup, is_calm, calling, with_strategy, handle, round_of}

-- What happens in a step.
pub data Act (F : Type 0) : Type 0 where
  request : Handler → Input F → Act F
  round : Name → Act F
  jobs_round : Act F
  mark_all : Act F
  inner : Act F

-- The steps that a strategy makes between the calls of Start and Stop and its rounds.
abbrev pub IsInner : Label → Type 0
IsInner Label.quiet = Unit
IsInner (Label.handed c) = Unit
IsInner _ = ⊥

-- A caller of the schedulable strategy's Stop goes on once its command is handed over.
abbrev pub returned : Name → Label → ℕ → ℕ
returned Name.schedulable (Label.handed Command.stop) n = suc n
returned _ _ n = n

module _ {F Q : Type 0} where
  -- The round of the server on/off strategy is over with the fuel at hand.
  abbrev pub IsOver : Setup F Q → Name → System F Q → Type 0
  IsOver setup Name.server_on_off s =
      (ServerOnOff.reconcile setup.env setup.ipmi setup.fuel
        (record { own = s.switches; log = s.exporter.log })).0
      ≢ ok none
  IsOver setup _ s = Unit

module _ {F Q : Type 0} ⦃f : Float64 F⦄ ⦃q : Quantity Q⦄ (setup : Setup F Q) where
  pub data Step (s : System F Q) : Act F → System F Q → Type 0 where
    handle_request :
        (h : Handler) (input : Input F) → Step s (Act.request h input) (handle setup h input s).1
    move :
        (k : Name) (l : Label) (t : BaseConcurrentStrategy)
        → IsInner l
        → Strategy.Step (strategy_of k s.controls) l t
        → Step s Act.inner (record (with_strategy k t s) { stopping = returned k l s.stopping })
    reconcile :
        (k : Name) (t : BaseConcurrentStrategy)
        → Strategy.Step (strategy_of k s.controls) Label.reconciled t
        → IsOver setup k s
        → Step s (Act.round k) (record (with_strategy k t (round_of setup k s).1) {
          is_up = is_calm (round_of setup k s).0;
        })
    start_jobs : Step s Act.jobs_round (record (calling (check_start_jobs setup.env) s).1 {
      is_up = is_calm (calling (check_start_jobs setup.env) s).0;
    })
    -- The loop at the end of SchedulableStrategy.Stop.
    mark :
        (n : ℕ)
        → s.stopping ≡ suc n
        → Step s Act.mark_all (record s { exporter = schedulable_stopped s.exporter; stopping = n })

  -- The states that the program reaches from the first one, with what has happened, the last act
  -- first. Nothing happens after a panic.
  pub data Run (first : System F Q) : List (Act F) → System F Q → Type 0 where
    here : Run first [] first
    next :
        {acts : List (Act F)} {a : Act F} {s t : System F Q}
        → Run first acts s
        → s.is_up ≡ true
        → Step s a t
        → Run first (a ∷ acts) t
