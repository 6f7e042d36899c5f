-- ===== src/System/Prompted.antt =====
-- A strategy has no round before a request starts it.
use target_exporter.Prelude.{◌≡◌, ◌⊎◌, refl, subst, inl, inr, List, In}
use target_exporter.Float.{Float64}
use target_exporter.World.{Quantity}
use target_exporter.Scheduling.Strategy.{Command, new_base_concurrent_strategy}
use target_exporter.Scheduling.Strategy.Unprompted.{IsUnstarted, Step-IsUnstarted, unstarted_rounds}
use target_exporter.Infrastructure.Switching.{Name, strategy_of}
use target_exporter.System.{System, Setup}
use target_exporter.System.Running.{Act, Step, Run}
use target_exporter.System.Prompting.{Prompts, Step-keeps}

module _ {F Q : Type 0} ⦃f : Float64 F⦄ ⦃q : Quantity Q⦄ (setup : Setup F Q) (k : Name) where
  -- Nobody has started the strategy, or some request has called Start.
  Run-IsUnstarted :
      {first s : System F Q} {acts : List (Act F)}
      → Run setup first acts s
      → strategy_of k first.controls ≡ new_base_concurrent_strategy
      → IsUnstarted (strategy_of k s.controls)
        ⊎ ((a : Act F) × In a acts × Prompts k Command.start a)
  Run-IsUnstarted Run.here fresh =
      inl (rw fresh (record { waits = tt; holds = tt; no_loop = refl }))
  Run-IsUnstarted (Run.next {a = a} before up step) fresh = elim (Run-IsUnstarted before fresh) [
    | inr (b, at, p) ↦ inr (b, inr at, p)
    | inl u ↦
        elim (Step-keeps setup Command.start IsUnstarted (record { keeps = Step-IsUnstarted }) k
          step u) [ inl u' ↦ inl u' | inr p ↦ inr (a, inl refl, p) ]
  ]

  -- In every run, a round of a strategy that was new at first comes after a PUT with `enabled` true to
  -- that strategy, whatever the other parts do.
  pub Run-Prompted :
      {first s : System F Q} {acts : List (Act F)}
      → Run setup first acts s
      → strategy_of k first.controls ≡ new_base_concurrent_strategy
      → In (Act.round k) acts
      → (a : Act F) × In a acts × Prompts k Command.start a
  Run-Prompted Run.here fresh at = absurd at
  Run-Prompted (Run.next before up step) fresh (inr at) =
      let (a, at', p) = Run-Prompted before fresh at in (a, inr at', p)
  Run-Prompted (Run.next {a = a} before up step) fresh (inl e) =
      elim (Run-IsUnstarted before fresh) [
        | inr (b, at, p) ↦ (b, inr at, p)
        | inl u ↦ absurd (first_round step e u)
      ]
    where
      first_round :
          {s t : System F Q} {a : Act F}
          → Step setup s a t
          → Act.round k ≡ a
          → IsUnstarted (strategy_of k s.controls)
          → ⊥
      first_round (Step.handle_request h input) e u = cc
      first_round (Step.move j l t inner step) e u = cc
      first_round {s} (Step.reconcile j t step over) e u =
          let same : k ≡ j = cc in
          unstarted_rounds step (subst (λ i. IsUnstarted (strategy_of i s.controls)) same u)
      first_round Step.start_jobs e u = cc
      first_round (Step.mark n e') e u = cc
