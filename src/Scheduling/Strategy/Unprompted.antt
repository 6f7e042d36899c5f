-- ===== src/Scheduling/Strategy/Unprompted.antt =====
-- A strategy does nothing that nobody has called for: no round before a Start, and no hand-over of a
-- Stop before a Stop.
use target_exporter.Prelude.{
  ◌≡◌, ◌≢◌, refl, ap, subst, Bool-cases, inl, inr, Option, none, some, List, [], ◌∷◌, ◌++◌, All,
  All-append,
}
use target_exporter.Scheduling.Strategy.{
  Command, LoopAt, BaseConcurrentStrategy, take_lock, announce, hand_over, obey, Label, Step,
}

-- The command is not among those of the callers.
abbrev Lacks : Command → List Command → Type 0
Lacks c cs = All (λ d. d ≢ c) cs

All-prefix : {A : Type 0} (P : A → Type 0) (xs ys : List A) → All P (xs ++ ys) → All P xs × All P ys
All-prefix P [] ys h = (tt, h)
All-prefix P (x ∷ xs) ys h = let (l, r) = All-prefix P xs ys h.1 in ((h.0, l), r)

lock-Lacks :
    (c d : Command) (waiting before after : List Command)
    → waiting ≡ before ++ (d ∷ after)
    → Lacks c waiting
    → (d ≢ c) × Lacks c (before ++ after)
lock-Lacks c d waiting before after e h =
    let (l, r) = All-prefix (λ x. x ≢ c) before (d ∷ after) (subst (Lacks c) e h) in
    (r.0, All-append (λ x. x ≢ c) before after l r.1)

-- No caller has the command Start, and there is no goroutine.
pub record IsUnstarted (s : BaseConcurrentStrategy) : Type 0 where
  pub waits : Lacks Command.start s.waiting
  pub holds : Lacks Command.start s.holding
  pub no_loop : s.loop ≡ none

abbrev IsAt : LoopAt → BaseConcurrentStrategy → Type 0
IsAt at s = s.loop ≡ some at

nowhere : {A : Type 0} {o : Option LoopAt} (at : LoopAt) → o ≡ none → o ≡ some at → A
nowhere at e e' = cc

pub Step-IsUnstarted :
    {s t : BaseConcurrentStrategy} {l : Label}
    → Step s l t
    → l ≢ Label.called Command.start
    → IsUnstarted s
    → IsUnstarted t
unfolding take_lock announce
Step-IsUnstarted (Step.call s c) n h = record {
  waits = (λ e. n (ap Label.called e), h.waits);
  holds = h.holds;
  no_loop = h.no_loop;
}
Step-IsUnstarted (Step.lock s c before after free e) n h =
    let (other, rest) = lock-Lacks Command.start c s.waiting before after e h.waits in
    record { waits = rest; holds = (other, h.holds); no_loop = h.no_loop }
Step-IsUnstarted (Step.enter s Command.start rest e) n h =
    absurd ((subst (Lacks Command.start) e h.holds).0 refl)
Step-IsUnstarted (Step.enter s Command.stop rest e) n h = record {
  waits = h.waits;
  holds = (subst (Lacks Command.start) e h.holds).1;
  no_loop = h.no_loop;
}
Step-IsUnstarted (Step.receive s c rest p e) n h = nowhere LoopAt.polling h.no_loop p
Step-IsUnstarted (Step.pass s p e) n h = nowhere LoopAt.polling h.no_loop p
Step-IsUnstarted (Step.set s c p) n h = nowhere (LoopAt.received c) h.no_loop p
Step-IsUnstarted (Step.work s p e) n h = nowhere LoopAt.deciding h.no_loop p
Step-IsUnstarted (Step.rest s p e) n h = nowhere LoopAt.deciding h.no_loop p
Step-IsUnstarted (Step.finish s p) n h = nowhere LoopAt.reconciling h.no_loop p
Step-IsUnstarted (Step.wake s p) n h = nowhere LoopAt.sleeping h.no_loop p

pub unstarted_rounds :
    {s t : BaseConcurrentStrategy} → Step s Label.reconciled t → IsUnstarted s → ⊥
unstarted_rounds (Step.work s p e) h = nowhere LoopAt.deciding h.no_loop p

-- No caller has the command Stop.
pub record IsUnstopped (s : BaseConcurrentStrategy) : Type 0 where
  pub waits : Lacks Command.stop s.waiting
  pub holds : Lacks Command.stop s.holding
  pub sends : Lacks Command.stop s.sending

same_callers :
    {s t : BaseConcurrentStrategy}
    → t.waiting ≡ s.waiting
    → t.holding ≡ s.holding
    → t.sending ≡ s.sending
    → IsUnstopped s
    → IsUnstopped t
same_callers a b c h = record { waits = rw a h.waits; holds = rw b h.holds; sends = rw c h.sends }

announce-IsUnstopped :
    (s : BaseConcurrentStrategy) (rest : List Command)
    → s.holding ≡ Command.start ∷ rest
    → IsUnstopped s
    → IsUnstopped (announce Command.start rest s)
unfolding announce
announce-IsUnstopped s rest e h =
    let holds = subst (Lacks Command.stop) e h.holds in
    elim (Bool-cases s.initialized) [
      | inl b ↦
          rw (b, announce) (record { waits = h.waits; holds = holds.1; sends = (holds.0, h.sends) })
      | inr b ↦
          rw (b, announce) (record { waits = h.waits; holds = holds.1; sends = (holds.0, h.sends) })
    ]

pub Step-IsUnstopped :
    {s t : BaseConcurrentStrategy} {l : Label}
    → Step s l t
    → l ≢ Label.called Command.stop
    → IsUnstopped s
    → IsUnstopped t × (l ≢ Label.handed Command.stop)
unfolding take_lock hand_over obey
Step-IsUnstopped (Step.call s c) n h = (
  record { waits = (λ e. n (ap Label.called e), h.waits); holds = h.holds; sends = h.sends },
  λ e. cc,
)
Step-IsUnstopped (Step.lock s c before after free e) n h =
    let (other, rest) = lock-Lacks Command.stop c s.waiting before after e h.waits in
    (record { waits = rest; holds = (other, h.holds); sends = h.sends }, λ e'. cc)
Step-IsUnstopped (Step.enter s Command.stop rest e) n h =
    absurd ((subst (Lacks Command.stop) e h.holds).0 refl)
Step-IsUnstopped (Step.enter s Command.start rest e) n h =
    (announce-IsUnstopped s rest e h, λ e'. cc)
Step-IsUnstopped (Step.receive s c rest p e) n h =
    let sends = subst (Lacks Command.stop) e h.sends in
    (record { waits = h.waits; holds = h.holds; sends = sends.1 }, λ e'. sends.0 (handed e'))
  where
    handed : {c d : Command} → Label.handed c ≡ Label.handed d → c ≡ d
    handed e = cc
Step-IsUnstopped (Step.pass s p e) n h = (same_callers refl refl refl h, λ e'. cc)
Step-IsUnstopped (Step.set s c p) n h = (same_callers refl refl refl h, λ e'. cc)
Step-IsUnstopped (Step.work s p e) n h = (same_callers refl refl refl h, λ e'. cc)
Step-IsUnstopped (Step.rest s p e) n h = (same_callers refl refl refl h, λ e'. cc)
Step-IsUnstopped (Step.finish s p) n h = (same_callers refl refl refl h, λ e'. cc)
Step-IsUnstopped (Step.wake s p) n h = (same_callers refl refl refl h, λ e'. cc)
