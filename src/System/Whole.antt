-- ===== src/System/Whole.antt =====
-- What holds of the whole program in every state that it reaches.
use target_exporter.Prelude.{
  ◌≡◌, ◌≢◌, ◌⊎◌, refl, ◌∙◌, ap, subst, inl, inr, ℕ, false, List, ◌∷◌, Dict, In, HasUniqueKeys,
  contains_key,
}
use target_exporter.Float.{Float64, IsOrdered}
use target_exporter.World.{Quantity}
use target_exporter.Scheduling.SchedulableStrategy.Flags.{AtMostOne}
use target_exporter.Scheduling.Strategy.{
  Command, Label, take_lock, announce, hand_over, BaseConcurrentStrategy,
}
use target_exporter.Scheduling.Strategy
use target_exporter.Scheduling.Strategy.Unprompted.{IsUnstopped, Step-IsUnstopped}
use target_exporter.Scheduling.Orchestrator.Forwarding.{started, new_orchestrator}
use target_exporter.Scheduling.Tawa
use target_exporter.Serverswitch.{IpmiServerSwitch}
use target_exporter.Infrastructure.Switching.{Name, strategy_of}
use target_exporter.Infrastructure.Routes.{Handler, Input}
use target_exporter.Infrastructure.Exporter
use target_exporter.Infrastructure.Exporter.Runs.{IsConsistent, Run-IsConsistent, Run-AtMostOne}
use target_exporter.System.{System, Setup, new_system, handle, round_of}
use target_exporter.System.Running.{Act, IsInner, returned, Step, Run}
use target_exporter.System.Prompting.{Prompts, Step-keeps}
use target_exporter.System.Maps.{is_marked, Run-Run}

module _ {F Q : Type 0} ⦃f : Float64 F⦄ ⦃q : Quantity Q⦄ (setup : Setup F Q) (config : Dict F)
    (switches : Dict IpmiServerSwitch) (now : ℕ) where
  abbrev first : System F Q
  first = new_system config switches now

  -- In every run of the whole program from configured targets with different names, both maps have
  -- exactly the configured nodes, in the same order, the gauge of each target exports the target,
  -- and the gauge of each flag is 1 or 0 as the flag says.
  pub Run-IsConsistent_whole :
      {s : System F Q} {acts : List (Act F)}
      → IsOrdered F
      → HasUniqueKeys config
      → Run setup first acts s
      → IsConsistent config s.exporter
  Run-IsConsistent_whole laws u run =
      Run-IsConsistent laws setup.env setup.setpoints config u
        (Run-Run setup config switches now run)

  -- No Stop of the schedulable strategy is under way, and none has marked the nodes.
  abbrev NoStop : List (Act F) → System F Q → Type 0
  NoStop acts s =
      IsUnstopped (strategy_of Name.schedulable s.controls)
      × (s.stopping ≡ 0)
      × (is_marked acts ≡ false)

  none_returned :
      (k : Name) (l : Label)
      → ((k ≡ Name.schedulable) → l ≢ Label.handed Command.stop)
      → returned k l 0 ≡ 0
  none_returned Name.schedulable (Label.handed Command.stop) n = absurd (n refl refl)
  none_returned Name.schedulable (Label.handed Command.start) n = refl
  none_returned Name.schedulable (Label.called c) n = refl
  none_returned Name.schedulable Label.reconciled n = refl
  none_returned Name.schedulable Label.quiet n = refl
  none_returned Name.self_driving l n = refl
  none_returned Name.tawa l n = refl
  none_returned Name.server_on_off l n = refl
  none_returned Name.reduce_targets l n = refl
  none_returned Name.automatic_job_spawn l n = refl

  handle-stopping :
      (h : Handler) (input : Input F) (s : System F Q)
      → (handle setup h input s).1.stopping ≡ s.stopping
  unfolding handle
  handle-stopping Handler.get_targets input s = refl
  handle-stopping Handler.post_targets input s = refl
  handle-stopping Handler.get_workloads input s = refl
  handle-stopping Handler.post_workloads input s = refl
  handle-stopping Handler.patch_workload input s = refl
  handle-stopping Handler.delete_completed input s = refl
  handle-stopping Handler.delete_pending_last input s = refl
  handle-stopping Handler.get_cpu_usage input s = refl
  handle-stopping Handler.get_cpu_diff input s = refl
  handle-stopping (Handler.get_switch k) input s = refl
  handle-stopping (Handler.put_switch k) input s = refl
  handle-stopping Handler.post_job_scenario input s = refl

  round_of-stopping : (k : Name) (s : System F Q) → (round_of setup k s).1.stopping ≡ s.stopping
  unfolding round_of Tawa.reconcile
  round_of-stopping Name.self_driving s = refl
  round_of-stopping Name.schedulable s = refl
  round_of-stopping Name.tawa s = refl
  round_of-stopping Name.server_on_off s = refl
  round_of-stopping Name.reduce_targets s = refl
  round_of-stopping Name.automatic_job_spawn s = refl

  -- A step with no Stop under way completes none.
  Step-stopping :
      {s t : System F Q} {a : Act F}
      → (acts : List (Act F)) → Step setup s a t
      → NoStop acts s
      → (t.stopping ≡ 0) × (is_marked (a ∷ acts) ≡ false)
  Step-stopping {s} acts (Step.handle_request h input) (u, none, un) =
      (handle-stopping h input s ∙ none, rw un refl)
  Step-stopping {s} acts (Step.move k l t inner step) (u, none, un) = (
    ap (returned k l) none
        ∙ none_returned k l (λ e.
          (Step-IsUnstopped (subst (λ i. Strategy.Step (strategy_of i s.controls) l t) e step)
            (not_called l inner) u).1),
    rw un refl,
  )
    where
      not_called : (l : Label) → IsInner l → l ≢ Label.called Command.stop
      not_called (Label.called c) i = absurd i
      not_called Label.reconciled i = absurd i
      not_called (Label.handed c) i = λ e. cc
      not_called Label.quiet i = λ e. cc
  Step-stopping {s} acts (Step.reconcile k t step over) (u, none, un) =
      (round_of-stopping k s ∙ none, rw un refl)
  Step-stopping acts Step.start_jobs (u, none, un) = (none, rw un refl)
  Step-stopping acts (Step.mark n e) (u, none, un) = cc

  Run-unstopped :
      {s : System F Q} {acts : List (Act F)}
      → Run setup first acts s
      → NoStop acts s ⊎ ((a : Act F) × In a acts × Prompts Name.schedulable Command.stop a)
  unfolding new_system new_orchestrator started take_lock announce hand_over
  Run-unstopped Run.here = inl (record { waits = tt; holds = tt; sends = tt }, refl, refl)
  Run-unstopped (Run.next {acts} {a} before up step) = elim (Run-unstopped before) [
    | inr (b, at, p) ↦ inr (b, inr at, p)
    | inl no_stop ↦
        elim (Step-keeps setup Command.stop IsUnstopped
          (record { keeps = λ step n u. (Step-IsUnstopped step n u).0 }) Name.schedulable step
          no_stop.0) [
            | inl u ↦ let (none, un) = Step-stopping acts step no_stop in inl (u, none, un)
            | inr p ↦ inr (a, inl refl, p)
          ]
  ]

  -- In every run of the whole program, in whatever order requests are handled and rounds, hand-overs
  -- and jobs' starts follow each other, and whatever the services answer: at most one node is
  -- schedulable, or some PUT has asked to stop the schedulable strategy, if the configured names are
  -- different and not empty.
  pub Run-AtMostOne_whole :
      {s : System F Q} {acts : List (Act F)}
      → IsOrdered F
      → HasUniqueKeys config
      → contains_key "" config ≡ false
      → Run setup first acts s
      → AtMostOne s.exporter.schedulable
        ⊎ ((a : Act F) × In a acts × Prompts Name.schedulable Command.stop a)
  Run-AtMostOne_whole {s} laws u e run = elim (Run-unstopped run) [
    | inr prompted ↦ inr prompted
    | inl (idle, none, unmarked) ↦ inl (
        Run-AtMostOne laws setup.env setup.setpoints config u e (
          subst (λ b. Exporter.Run setup.env setup.setpoints config b s.exporter) unmarked
            (Run-Run setup config switches now run)))
  ]
