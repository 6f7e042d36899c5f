-- ===== src/System/Prompting.antt =====
-- Which requests reach a strategy, and that a strategy has no round before a request starts it.
use target_exporter.Prelude.{◌≡◌, ◌≢◌, ◌⊎◌, refl, sym, ap, subst, inl, inr, Bool, true, false}
use target_exporter.Float.{Float64}
use target_exporter.Outcome.{ok, err, panic}
use target_exporter.World.{Quantity}
use target_exporter.Scheduling.Strategy
use target_exporter.Scheduling.Tawa
use target_exporter.Scheduling.Strategy.{
  Command, is_start, BaseConcurrentStrategy, new_base_concurrent_strategy, Label,
}
use target_exporter.Scheduling.Orchestrator.Forwarding.{arrive}
use target_exporter.Infrastructure.SwitchHandlers.{
  Controls, Request, put_automatic_job_spawn, put_self_driving, put_schedulable, put_tawa,
  put_server_on_off, put_reduce_targets,
}
use target_exporter.Infrastructure.Switching.{
  Name, strategy_of, replaced, strategy_of-replaced, replaced-others, put, put_lem,
}
use target_exporter.Infrastructure.Routes.{Handler, Input}
use target_exporter.System.{System, Setup, handle, round_of}
use target_exporter.System.Running.{Act, IsInner, Step}

-- The act is a PUT to the strategy of that name that calls Start, or Stop.
abbrev pub Prompts : {F : Type 0} → Name → Command → Act F → Type 0
Prompts k c (Act.request (Handler.put_switch j) input) = (j ≡ k) × (input.enabled ≡ ok (is_start c))
Prompts k c _ = ⊥

-- The one strategy is as before, or a caller has arrived there.
abbrev Meets : Name → Name → Request → Controls → Controls → Type 0
Meets k j request o o' =
    (strategy_of k o' ≡ strategy_of k o)
    ⊎ ((c : Command) × (j ≡ k)
        × (request ≡ ok (is_start c))
        × (strategy_of k o' ≡ arrive c (strategy_of k o)))

module _ (F : Type 0) (k : Name) where
  put_unread :
      (j : Name) (o : Controls) (request : Request)
      → ((b : Bool) → request ≢ ok b)
      → (put {F = F} j request o).1 ≡ o
  unfolding put_automatic_job_spawn put_self_driving put_schedulable put_tawa put_server_on_off
      put_reduce_targets
  put_unread j o (ok b) n = absurd (n b refl)
  put_unread Name.self_driving o (err e) n = refl
  put_unread Name.schedulable o (err e) n = refl
  put_unread Name.tawa o (err e) n = refl
  put_unread Name.server_on_off o (err e) n = refl
  put_unread Name.reduce_targets o (err e) n = refl
  put_unread Name.automatic_job_spawn o (err e) n = refl
  put_unread Name.self_driving o panic n = refl
  put_unread Name.schedulable o panic n = refl
  put_unread Name.tawa o panic n = refl
  put_unread Name.server_on_off o panic n = refl
  put_unread Name.reduce_targets o panic n = refl
  put_unread Name.automatic_job_spawn o panic n = refl

  put_command :
      (j : Name) (c : Command) (o : Controls)
      → Meets k j (ok (is_start c)) o (put {F = F} j (ok (is_start c)) o).1
  put_command j c o =
      rw (ap (λ r. r.1) (put_lem {F = F} j c o))
        (elim (replaced-others k j (arrive c (strategy_of j o)) o) [
          | inl e ↦ inr (
            c,
            sym e,
            refl,
            subst
                (λ i.
                  strategy_of i (replaced j (arrive c (strategy_of j o)) o)
                  ≡ arrive c (strategy_of i o))
                (sym e) (strategy_of-replaced j _ o),
          )
          | inr same ↦ inl same
        ])

  pub put-Meets :
      (j : Name) (request : Request) (o : Controls)
      → Meets k j request o (put {F = F} j request o).1
  put-Meets j (ok true) o = put_command j Command.start o
  put-Meets j (ok false) o = put_command j Command.stop o
  put-Meets j (err e) o = inl (ap (strategy_of k) (put_unread j o (err e) (λ b e'. cc)))
  put-Meets j panic o = inl (ap (strategy_of k) (put_unread j o panic (λ b e'. cc)))

-- A step of one strategy, seen from the strategy of another name or the same.
pub replaced-strategy :
    (k j : Name) (t : BaseConcurrentStrategy) (o : Controls)
    → (strategy_of k (replaced j t o) ≡ strategy_of k o)
      ⊎ ((j ≡ k) × (strategy_of k (replaced j t o) ≡ t))
replaced-strategy k j t o = elim (replaced-others k j t o) [
  | inl e ↦
      inr (
        sym e,
        subst (λ i. strategy_of i (replaced j t o) ≡ t) (sym e) (strategy_of-replaced j t o),
      )
  | inr same ↦ inl same
]

module _ {F Q : Type 0} ⦃f : Float64 F⦄ ⦃q : Quantity Q⦄ (setup : Setup F Q) where
  -- A step is the strategy's own, or the arrival of a caller, or leaves it alone.
  pub handle-Meets :
      (k : Name) (h : Handler) (input : Input F) (s : System F Q)
      → (strategy_of k (handle setup h input s).1.controls ≡ strategy_of k s.controls)
        ⊎ ((c : Command) × Prompts k c (Act.request h input)
            × (strategy_of k (handle setup h input s).1.controls
                ≡ arrive c (strategy_of k s.controls)))
  unfolding handle
  handle-Meets k (Handler.put_switch j) input s = elim (put-Meets F k j input.enabled s.controls) [
    | inl same ↦ inl same
    | inr (c, e, r, a) ↦ inr (c, (e, r), a)
  ]
  handle-Meets k Handler.get_targets input s = inl refl
  handle-Meets k Handler.post_targets input s = inl refl
  handle-Meets k Handler.get_workloads input s = inl refl
  handle-Meets k Handler.post_workloads input s = inl refl
  handle-Meets k Handler.patch_workload input s = inl refl
  handle-Meets k Handler.delete_completed input s = inl refl
  handle-Meets k Handler.delete_pending_last input s = inl refl
  handle-Meets k Handler.get_cpu_usage input s = inl refl
  handle-Meets k Handler.get_cpu_diff input s = inl refl
  handle-Meets k (Handler.get_switch j) input s = inl refl
  handle-Meets k Handler.post_job_scenario input s = inl refl

inner_calls : (l : Label) (c : Command) → IsInner l → l ≢ Label.called c
inner_calls Label.quiet c i = λ e. cc
inner_calls (Label.handed d) c i = λ e. cc
inner_calls (Label.called d) c i = absurd i
inner_calls Label.reconciled c i = absurd i

same_command : (d c : Command) → (d ≡ c) ⊎ (Label.called d ≢ Label.called c)
same_command Command.start Command.start = inl refl
same_command Command.stop Command.stop = inl refl
same_command Command.start Command.stop = inr (λ e. cc)
same_command Command.stop Command.start = inr (λ e. cc)

-- A predicate on a strategy that all its steps keep but the arrival of the one command.
pub record IsKeptWithout (c : Command) (R : BaseConcurrentStrategy → Type 0) : Type 0 where
  pub keeps :
      {s t : BaseConcurrentStrategy} {l : Label}
      → Strategy.Step s l t
      → l ≢ Label.called c
      → R s
      → R t

module _ {F Q : Type 0} ⦃f : Float64 F⦄ ⦃q : Quantity Q⦄ (setup : Setup F Q) (c : Command)
    (R : BaseConcurrentStrategy → Type 0) (kept : IsKeptWithout c R) (k : Name) where
  arrives :
      (d : Command) (a : Act F) (s : BaseConcurrentStrategy)
      → Prompts k d a
      → R s
      → R (arrive d s) ⊎ Prompts k c a
  unfolding arrive
  arrives d a s p r = elim (same_command d c) [
    | inl e ↦ inr (subst (λ x. Prompts k x a) e p)
    | inr n ↦ inl (kept.keeps (Strategy.Step.call s d) n r)
  ]

  moves :
      (j : Name) {l : Label} {t : BaseConcurrentStrategy} (o : Controls)
      → Strategy.Step (strategy_of j o) l t
      → l ≢ Label.called c
      → R (strategy_of k o)
      → R (strategy_of k (replaced j t o))
  moves j {l} {t} o step n r = elim (replaced-strategy k j t o) [
    | inl same ↦ rw same r
    | inr (e, is) ↦ rw is (kept.keeps (subst (λ i. Strategy.Step (strategy_of i o) l t) e step) n r)
  ]

  round_of-controls : (j : Name) (s : System F Q) → (round_of setup j s).1.controls ≡ s.controls
  unfolding round_of Tawa.reconcile
  round_of-controls Name.self_driving s = refl
  round_of-controls Name.schedulable s = refl
  round_of-controls Name.tawa s = refl
  round_of-controls Name.server_on_off s = refl
  round_of-controls Name.reduce_targets s = refl
  round_of-controls Name.automatic_job_spawn s = refl

  -- A step of the program keeps the predicate, or it is a PUT that prompts the strategy.
  pub Step-keeps :
      {s t : System F Q} {a : Act F}
      → Step setup s a t
      → R (strategy_of k s.controls)
      → R (strategy_of k t.controls) ⊎ Prompts k c a
  Step-keeps {s} (Step.handle_request h input) r = elim (handle-Meets setup k h input s) [
    | inl same ↦ inl (rw same r)
    | inr (d, p, a) ↦ elim (arrives d (Act.request h input) (strategy_of k s.controls) p r) [
      | inl r' ↦ inl (rw a r')
      | inr p' ↦ inr p'
    ]
  ]
  Step-keeps {s} (Step.move j l t inner step) r =
      inl (moves j s.controls step (inner_calls l c inner) r)
  Step-keeps {s} (Step.reconcile j t step over) r = inl (
      rw (ap (λ o. strategy_of k (replaced j t o)) (round_of-controls j s))
        (moves j s.controls step (λ e. cc) r))
  Step-keeps {s} Step.start_jobs r = inl r
  Step-keeps {s} (Step.mark n e) r = inl r
