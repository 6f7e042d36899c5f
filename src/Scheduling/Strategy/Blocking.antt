-- ===== src/Scheduling/Strategy/Blocking.antt =====
-- A Stop of a strategy that was never started, which does not return.
use target_exporter.Prelude.{◌≡◌, ◌⊎◌, inl, inr, refl, true, Option, none, some, List, [], ◌∷◌}
use target_exporter.Scheduling.Strategy.{
  Command, LoopAt, BaseConcurrentStrategy, announce, Label, Step, Exec,
}
use target_exporter.Scheduling.Strategy.Commands.{last_handed}

-- A Stop is past the mutex, before its send or at the channel, and there is no goroutine to take it.
pub record IsBlocked (s : BaseConcurrentStrategy) : Type 0 where
  pub locked : s.mu ≡ true
  pub nobody : s.loop ≡ none
  pub place :
      (s.holding ≡ Command.stop ∷ []) × (s.sending ≡ [])
      ⊎ (s.holding ≡ []) × (s.sending ≡ Command.stop ∷ [])

nobody-stands : (loop : Option LoopAt) (at : LoopAt) → loop ≡ none → loop ≡ some at → ⊥
nobody-stands loop at n e = cc

announce-IsBlocked :
    (s : BaseConcurrentStrategy) (c : Command) (rest : List Command)
    → IsBlocked s
    → s.holding ≡ c ∷ rest
    → IsBlocked (announce c rest s)
unfolding announce
announce-IsBlocked s Command.start rest h q = absurd (start-absent h.place)
  where
    start-absent :
        ((s.holding ≡ Command.stop ∷ []) × (s.sending ≡ [])
          ⊎ (s.holding ≡ []) × (s.sending ≡ Command.stop ∷ []))
        → ⊥
    start-absent (inl (a, b)) = cc
    start-absent (inr (a, b)) = cc
announce-IsBlocked s Command.stop rest h q = record {
  locked = h.locked;
  nobody = h.nobody;
  place = inr (moved h.place);
}
  where
    moved :
        ((s.holding ≡ Command.stop ∷ []) × (s.sending ≡ [])
          ⊎ (s.holding ≡ []) × (s.sending ≡ Command.stop ∷ []))
        → (rest ≡ []) × (Command.stop ∷ s.sending ≡ Command.stop ∷ [])
    moved (inl (a, b)) = (cc, cc)
    moved (inr (a, b)) = (cc, cc)

Step-IsBlocked :
    {s t : BaseConcurrentStrategy} {l : Label} (labels : List Label)
    → Step s l t
    → IsBlocked s × (last_handed labels ≡ none)
    → IsBlocked t × (last_handed (l ∷ labels) ≡ none)
Step-IsBlocked labels (Step.call s c) (h, e) =
    (record { locked = h.locked; nobody = h.nobody; place = h.place }, e)
Step-IsBlocked labels (Step.lock s c before after free w) (h, e) = absurd (cc h.locked)
Step-IsBlocked labels (Step.enter s c rest q) (h, e) = (announce-IsBlocked s c rest h q, e)
Step-IsBlocked labels (Step.receive s c rest p q) (h, e) = absurd (nobody-stands _ _ h.nobody p)
Step-IsBlocked labels (Step.pass s p q) (h, e) = absurd (nobody-stands _ _ h.nobody p)
Step-IsBlocked labels (Step.set s c p) (h, e) = absurd (nobody-stands _ _ h.nobody p)
Step-IsBlocked labels (Step.work s p q) (h, e) = absurd (nobody-stands _ _ h.nobody p)
Step-IsBlocked labels (Step.rest s p q) (h, e) = absurd (nobody-stands _ _ h.nobody p)
Step-IsBlocked labels (Step.finish s p) (h, e) = absurd (nobody-stands _ _ h.nobody p)
Step-IsBlocked labels (Step.wake s p) (h, e) = absurd (nobody-stands _ _ h.nobody p)

-- Once a Stop is past the mutex of a strategy that was never started, it stays there with the mutex
-- locked in every continuation, and no command is handed over any more, not even a later Start's.
pub Exec-IsBlocked :
    {s : BaseConcurrentStrategy} {labels : List Label} {t : BaseConcurrentStrategy}
    → IsBlocked s
    → Exec s labels t
    → IsBlocked t × (last_handed labels ≡ none)
Exec-IsBlocked h Exec.here = (h, refl)
Exec-IsBlocked h (Exec.next {labels} before step) =
    Step-IsBlocked labels step (Exec-IsBlocked h before)
