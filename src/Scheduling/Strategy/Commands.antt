-- ===== src/Scheduling/Strategy/Commands.antt =====
-- What decides whether the strategy reconciles.
use target_exporter.Prelude.{
  ◌+◌, ◌≡◌, refl, Bool, true, false, Option, none, some, List, [], ◌∷◌, length, arith, ap, subst,
  sym, ◌∙◌, if◌then◌else◌,
}
use target_exporter.Scheduling.Strategy.{
  Command, is_start, LoopAt, BaseConcurrentStrategy, new_base_concurrent_strategy, take_lock,
  announce, hand_over, obey, Label, Step, Exec,
}

-- The last command that the channel took.
abbrev pub last_handed : List Label → Option Command
last_handed [] = none
last_handed (Label.handed c ∷ labels) = some c
last_handed (Label.called c ∷ labels) = last_handed labels
last_handed (Label.reconciled ∷ labels) = last_handed labels
last_handed (Label.quiet ∷ labels) = last_handed labels

abbrev pub is_started : Option Command → Bool
is_started none = false
is_started (some c) = is_start c

-- What the goroutine knows of the last command.
abbrev pub Knows : List Label → Option LoopAt → Bool → Bool → Type 0
Knows labels none run initialized =
    (initialized ≡ false) × (run ≡ false) × (last_handed labels ≡ none)
Knows labels (some (LoopAt.received c)) run initialized =
    (initialized ≡ true) × (last_handed labels ≡ some c)
Knows labels (some _) run initialized =
    (initialized ≡ true) × (run ≡ is_started (last_handed labels))

pub record Agrees (labels : List Label) (s : BaseConcurrentStrategy) : Type 0 where
  pub one_holder : length s.holding + length s.sending ≡ (if s.mu then 1 else 0)
  pub same : s.is_running ≡ s.run
  pub knows : Knows labels s.loop s.run s.initialized

Knows-ignored :
    (labels later : List Label) (loop : Option LoopAt) (run initialized : Bool)
    → last_handed later ≡ last_handed labels
    → Knows labels loop run initialized
    → Knows later loop run initialized
Knows-ignored labels later none run initialized e h = ground arith
Knows-ignored labels later (some LoopAt.polling) run initialized e h = ground arith
Knows-ignored labels later (some (LoopAt.received c)) run initialized e h = ground arith
Knows-ignored labels later (some LoopAt.deciding) run initialized e h = ground arith
Knows-ignored labels later (some LoopAt.reconciling) run initialized e h = ground arith
Knows-ignored labels later (some LoopAt.sleeping) run initialized e h = ground arith

-- Before the first Start nothing was handed over.
pub Knows-uninitialized :
    (labels : List Label) (loop : Option LoopAt) (run : Bool)
    → Knows labels loop run false
    → (run ≡ false) × (last_handed labels ≡ none)
Knows-uninitialized labels none run (a, b, c) = (b, c)
Knows-uninitialized labels (some LoopAt.polling) run h = (cc, cc)
Knows-uninitialized labels (some (LoopAt.received c)) run h = (cc, cc)
Knows-uninitialized labels (some LoopAt.deciding) run h = (cc, cc)
Knows-uninitialized labels (some LoopAt.reconciling) run h = (cc, cc)
Knows-uninitialized labels (some LoopAt.sleeping) run h = (cc, cc)

if-Agrees :
    (labels : List Label) (b : Bool) (s t : BaseConcurrentStrategy)
    → (b ≡ true → Agrees labels s)
    → (b ≡ false → Agrees labels t)
    → Agrees labels (if b then s else t)
if-Agrees labels true s t hs ht = hs refl
if-Agrees labels false s t hs ht = ht refl

announce-Agrees :
    (labels : List Label) (s : BaseConcurrentStrategy) (c : Command) (rest : List Command)
    → s.holding ≡ c ∷ rest
    → Agrees labels s
    → Agrees (Label.quiet ∷ labels) (announce c rest s)
unfolding announce
announce-Agrees labels s Command.stop rest e h = record {
  one_holder = omega (arith, h.one_holder, ap length e);
  same = h.same;
  knows = Knows-ignored labels (Label.quiet ∷ labels) s.loop s.run s.initialized refl h.knows;
}
announce-Agrees labels s Command.start rest e h =
    if-Agrees (Label.quiet ∷ labels) s.initialized _ _
      (λ b. record {
        one_holder = omega (arith, h.one_holder, ap length e);
        same = h.same;
        knows = Knows-ignored labels (Label.quiet ∷ labels) s.loop s.run s.initialized refl h.knows;
      })
      (λ b.
        let k =
          Knows-uninitialized labels s.loop s.run (subst (Knows labels s.loop s.run) b h.knows) in
        record {
          one_holder = omega (arith, h.one_holder, ap length e);
          same = h.same ∙ k.0;
          knows = (refl, rw k.1 refl);
        })

Step-Agrees :
    {labels : List Label} {s t : BaseConcurrentStrategy} {l : Label}
    → Step s l t
    → Agrees labels s
    → Agrees (l ∷ labels) t
unfolding take_lock hand_over obey
Step-Agrees {labels} (Step.call s c) h = record {
  one_holder = h.one_holder;
  same = h.same;
  knows = Knows-ignored labels (Label.called c ∷ labels) s.loop s.run s.initialized refl h.knows;
}
Step-Agrees {labels} (Step.lock s c before after free w) h = record {
  one_holder = ground arith;
  same = h.same;
  knows = Knows-ignored labels (Label.quiet ∷ labels) s.loop s.run s.initialized refl h.knows;
}
Step-Agrees {labels} (Step.enter s c rest e) h = announce-Agrees labels s c rest e h
Step-Agrees {labels} (Step.receive s c rest p e) h =
    let k = subst (λ o. Knows labels o s.run s.initialized) p h.knows in
    record { one_holder = ground arith; same = h.same; knows = (k.0, refl) }
Step-Agrees {labels} (Step.pass s p e) h = record {
  one_holder = h.one_holder;
  same = h.same;
  knows = subst (λ o. Knows labels o s.run s.initialized) p h.knows;
}
Step-Agrees {labels} (Step.set s c p) h =
    let k = subst (λ o. Knows labels o s.run s.initialized) p h.knows in
    record { one_holder = h.one_holder; same = refl; knows = (k.0, ground arith) }
Step-Agrees {labels} (Step.work s p e) h = record {
  one_holder = h.one_holder;
  same = h.same;
  knows = subst (λ o. Knows labels o s.run s.initialized) p h.knows;
}
Step-Agrees {labels} (Step.rest s p e) h = record {
  one_holder = h.one_holder;
  same = h.same;
  knows = subst (λ o. Knows labels o s.run s.initialized) p h.knows;
}
Step-Agrees {labels} (Step.finish s p) h = record {
  one_holder = h.one_holder;
  same = h.same;
  knows = subst (λ o. Knows labels o s.run s.initialized) p h.knows;
}
Step-Agrees {labels} (Step.wake s p) h = record {
  one_holder = h.one_holder;
  same = h.same;
  knows = subst (λ o. Knows labels o s.run s.initialized) p h.knows;
}

pub Exec-Agrees :
    {labels : List Label} {s : BaseConcurrentStrategy}
    → Exec new_base_concurrent_strategy labels s
    → Agrees labels s
Exec-Agrees Exec.here = record { one_holder = refl; same = refl; knows = (refl, refl, refl) }
Exec-Agrees (Exec.next before step) = Step-Agrees step (Exec-Agrees before)

started-start : (o : Option Command) → is_started o ≡ true → o ≡ some Command.start
started-start none e = cc
started-start (some Command.start) e = refl
started-start (some Command.stop) e = cc

work-started :
    {labels : List Label} {s t : BaseConcurrentStrategy}
    → Step s Label.reconciled t
    → Agrees labels s
    → last_handed labels ≡ some Command.start
work-started {labels} (Step.work s p e) h =
    let k = subst (λ o. Knows labels o s.run s.initialized) p h.knows in
    started-start _ (sym k.1 ∙ e)

-- In every interleaving of calls at most one caller is past the mutex, and one is there just if the
-- mutex is locked; and IsRunning answers as the variable `run` of the goroutine decides.
pub Exec-one_holder :
    {labels : List Label} {s : BaseConcurrentStrategy}
    → Exec new_base_concurrent_strategy labels s
    → (length s.holding + length s.sending ≡ (if s.mu then 1 else 0)) × (s.is_running ≡ s.run)
Exec-one_holder steps = let h = Exec-Agrees steps in (h.one_holder, h.same)

-- In every interleaving of calls, a round of `reconcile` begins only when the last command that was
-- handed over is Start: once a call of Stop has returned there is no further round before a Start.
pub reconciled-started :
    {labels : List Label} {s t : BaseConcurrentStrategy}
    → Exec new_base_concurrent_strategy labels s
    → Step s Label.reconciled t
    → last_handed labels ≡ some Command.start
reconciled-started before step = work-started step (Exec-Agrees before)
