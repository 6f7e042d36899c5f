-- ===== src/Scheduling/Strategy/Refinement.antt =====
-- A strategy seen as a switch that is on or off: mutex, channel and goroutine implement it.
use target_exporter.Prelude.{
  ◌≡◌, refl, subst, Bool, true, false, Option, none, some, List, [], ◌∷◌, if◌then◌else◌,
}
use target_exporter.Scheduling.Strategy.{
  Command, is_start, LoopAt, BaseConcurrentStrategy, new_base_concurrent_strategy, take_lock,
  announce, hand_over, obey, Label, Step, Exec,
}
use target_exporter.Scheduling.Strategy.Commands.{Knows, Agrees, Exec-Agrees}

-- The steps of a switch: a command that is handed over turns it, a round needs it to be on, and
-- nothing else changes it.
pub data SwitchStep : Bool → Label → Bool → Type 0 where
  turn : (b : Bool) (c : Command) → SwitchStep b (Label.handed c) (is_start c)
  work : SwitchStep true Label.reconciled true
  called : (b : Bool) (c : Command) → SwitchStep b (Label.called c) b
  quiet : (b : Bool) → SwitchStep b Label.quiet b

pub data SwitchExec (b : Bool) : List Label → Bool → Type 0 where
  here : SwitchExec b [] b
  next :
      {labels : List Label} {l : Label} {c d : Bool}
      → SwitchExec b labels c
      → SwitchStep c l d
      → SwitchExec b (l ∷ labels) d

-- What a command that the goroutine has taken makes of `run`, and else `run` itself.
abbrev run_at : Option LoopAt → Bool → Bool
run_at (some (LoopAt.received c)) run = is_start c
run_at _ run = run

abbrev pub is_on : BaseConcurrentStrategy → Bool
is_on s = run_at s.loop s.run

same_run : {l : Label} (b : Bool) {c : Bool} → SwitchStep b l b → b ≡ c → SwitchStep b l c
same_run {l} b step e = subst (SwitchStep b l) e step

-- Before the first Start the switch is off.
off_before :
    (labels : List Label) (loop : Option LoopAt) (run : Bool)
    → Knows labels loop run false
    → run_at loop run ≡ false
off_before labels none run (a, off, b) = off
off_before labels (some LoopAt.polling) run h = cc
off_before labels (some (LoopAt.received c)) run h = cc
off_before labels (some LoopAt.deciding) run h = cc
off_before labels (some LoopAt.reconciling) run h = cc
off_before labels (some LoopAt.sleeping) run h = cc

announce-is_on :
    (labels : List Label) (c : Command) (rest : List Command) (s : BaseConcurrentStrategy)
    → Agrees labels s
    → is_on s ≡ is_on (announce c rest s)
unfolding announce
announce-is_on labels Command.stop rest s h = refl
announce-is_on labels Command.start rest s h = by_flag s.initialized refl
  where
    by_flag :
        (b : Bool)
        → s.initialized ≡ b
        → is_on s
          ≡ is_on (
              if b
              then record s { holding = rest; sending = Command.start ∷ s.sending }
              else record s {
                initialized = true;
                loop = some LoopAt.polling;
                run = false;
                holding = rest;
                sending = Command.start ∷ s.sending;
              })
    by_flag true e = refl
    by_flag false e = off_before labels s.loop s.run (subst (Knows labels s.loop s.run) e h.knows)

Step-SwitchStep :
    {labels : List Label} {s t : BaseConcurrentStrategy} {l : Label}
    → Step s l t
    → Agrees labels s
    → SwitchStep (is_on s) l (is_on t)
unfolding take_lock hand_over obey
Step-SwitchStep (Step.call s c) h = SwitchStep.called (is_on s) c
Step-SwitchStep (Step.lock s c before after free w) h = SwitchStep.quiet (is_on s)
Step-SwitchStep {labels} (Step.enter s c rest e) h =
    same_run (is_on s) (SwitchStep.quiet (is_on s)) (announce-is_on labels c rest s h)
Step-SwitchStep (Step.receive s c rest p e) h = SwitchStep.turn (is_on s) c
Step-SwitchStep (Step.pass s p e) h = rw p (SwitchStep.quiet s.run)
Step-SwitchStep (Step.set s c p) h = rw p (SwitchStep.quiet (is_start c))
Step-SwitchStep (Step.work s p e) h = rw (p, e) SwitchStep.work
Step-SwitchStep (Step.rest s p e) h = rw p (SwitchStep.quiet s.run)
Step-SwitchStep (Step.finish s p) h = rw p (SwitchStep.quiet s.run)
Step-SwitchStep (Step.wake s p) h = rw p (SwitchStep.quiet s.run)

-- A strategy implements a switch that is off at first: each execution of the strategy, in whatever
-- order the calls of Start and Stop meet, is an execution of the switch with the same calls, hand-overs
-- and rounds, and the switch ends in the position that the strategy's state stands for.
pub Exec-SwitchExec :
    {labels : List Label} {s : BaseConcurrentStrategy}
    → Exec new_base_concurrent_strategy labels s
    → SwitchExec false labels (is_on s)
Exec-SwitchExec Exec.here = SwitchExec.here
Exec-SwitchExec (Exec.next before step) =
    SwitchExec.next (Exec-SwitchExec before) (Step-SwitchStep step (Exec-Agrees before))
