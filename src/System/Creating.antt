-- ===== src/System/Creating.antt =====
-- How many jobs a handler and a round create at most.
use target_exporter.Prelude.{
  ◌≡◌, refl, subst, inl, inr, Bool-cases, true, ℕ, ◌+◌, ◌≤◌, Option, none, some, List, [], ◌∷◌, All,
  In, tally-append, arith,
}
use target_exporter.Float.{Float64}
use target_exporter.Outcome.{Outcome, ok, err, panic, pure}
use target_exporter.World.{Quantity, Event, Log, St}
use target_exporter.Scheduling.AutomaticJobSpawn.Burst.{reconcile-IsCounted}
use target_exporter.Scheduling.Orchestrator.{Settings}
use target_exporter.Scheduling.Orchestrator.Workload.{creations, is_creation, add_workload-Creates}
use target_exporter.Scheduling.Tawa
use target_exporter.Infrastructure.{
  answered, server_error, Response, WorkloadRequest, post_workloads,
}
use target_exporter.Infrastructure.Creation.{job_count, IsScenario, post_job_scenario-creations}
use target_exporter.Infrastructure.Switching.{Name}
use target_exporter.Infrastructure.Routes.{Handler, Input}
use target_exporter.System.{System, Setup, settings_of, handle, round_of}
use target_exporter.System.Running.{Act}
use target_exporter.System.Powers.{Kind, kind, powers_of_handler, powers_of_round, IsOf}
use target_exporter.System.Blame.{Adds, log_of, handle-Adds, round_of-Adds}

abbrev pub round_budget : Name → ℕ
round_budget Name.automatic_job_spawn = 1
round_budget _ = 0

-- How many jobs the act creates at most.
abbrev pub budget : {F : Type 0} → Act F → ℕ
budget (Act.request Handler.post_workloads input) = 1
budget (Act.request Handler.post_job_scenario input) = job_count input.scenario
budget (Act.round k) = round_budget k
budget _ = 0

abbrev pub budgets : {F : Type 0} → List (Act F) → ℕ
budgets [] = 0
budgets (a ∷ acts) = budget a + budgets acts

is_creation-kind : {Q : Type 0} (e : Event Q) → is_creation e ≡ true → kind e ≡ Kind.create
is_creation-kind (Event.create_job m) h = refl
is_creation-kind _ h = cc

none_created :
    {Q : Type 0} (kinds : List Kind) (new : Log Q)
    → (In Kind.create kinds → ⊥)
    → All (IsOf kinds) new
    → creations new ≡ 0
none_created kinds [] n h = refl
none_created kinds (e ∷ new) n (of, h) = elim (Bool-cases (is_creation e)) [
  | inl b ↦ absurd (n (subst (λ k. In k kinds) (is_creation-kind e b) of))
  | inr b ↦ rw b (omega (arith, none_created kinds new n h))
]

module _ {F Q : Type 0} where
  -- So many jobs are created at most, and the counter of the burst is at most 4.
  abbrev pub IsWithin : ℕ → ℕ → System F Q → Type 0
  IsWithin before n t = (creations t.exporter.log ≤ before + n) × (t.spawn.spawn_count ≤ 4)

module _ {F Q : Type 0} ⦃f : Float64 F⦄ ⦃q : Quantity Q⦄ (setup : Setup F Q) where
  -- A step that may not create jobs.
  pub idle :
      (kinds : List Kind) (log : Log Q) (t : System F Q)
      → (In Kind.create kinds → ⊥)
      → Adds kinds log t
      → creations t.exporter.log ≤ creations log + 0
  idle kinds log t n (new, same, fine) =
      rw same (omega (arith, tally-append is_creation log new, none_created kinds new n fine))

  sent :
      (o : Outcome (Unit {0})) (st : St (Unit {0}) Q) (answer : Option (Response F)) (n : ℕ)
      → creations st.log ≤ n
      → creations (answered o server_error (λ _. pure answer) st).1.log ≤ n
  sent (ok a) st answer n h = h
  sent (err e) st answer n h = h
  sent panic st answer n h = h

  post_workloads-creations :
      (settings : Settings) (request : Outcome (WorkloadRequest F)) (st : St (Unit {0}) Q)
      → creations (post_workloads setup.env settings request st).1.log ≤ creations st.log + 1
  unfolding post_workloads
  post_workloads-creations settings (err e) st = omega arith
  post_workloads-creations settings panic st = omega arith
  post_workloads-creations settings (ok payload) st =
      sent _ _ _ (creations st.log + 1) (add_workload-Creates setup.env settings _ st).0

  IsScenario-bound :
      (before n : ℕ) (o : Outcome (Option (Response F))) (st' : St (Unit {0}) Q)
      → IsScenario before n (o, st')
      → creations st'.log ≤ before + n
  IsScenario-bound before n (ok none) st' h = omega (arith, h)
  IsScenario-bound before n (ok (some r)) st' h = h
  IsScenario-bound before n (err e) st' h = h
  IsScenario-bound before n panic st' h = h

  pub handle-creations :
      (h : Handler) (input : Input F) (s : System F Q)
      → creations (handle setup h input s).1.exporter.log
        ≤ creations s.exporter.log + budget (Act.request h input)
  unfolding handle
  handle-creations Handler.post_workloads input s =
      post_workloads-creations (settings_of setup s) input.workload (log_of setup s)
  handle-creations Handler.post_job_scenario input s =
      IsScenario-bound (creations s.exporter.log) (job_count input.scenario) _ _ (
        post_job_scenario-creations setup.env (settings_of setup s) input.scenario (log_of setup s))
  handle-creations Handler.get_targets input s =
      idle (powers_of_handler Handler.get_targets) s.exporter.log
        (handle setup Handler.get_targets input s).1 (λ i. ground arith)
        (handle-Adds setup Handler.get_targets input s)
  handle-creations Handler.post_targets input s =
      idle (powers_of_handler Handler.post_targets) s.exporter.log
        (handle setup Handler.post_targets input s).1 (λ i. ground arith)
        (handle-Adds setup Handler.post_targets input s)
  handle-creations Handler.get_workloads input s =
      idle (powers_of_handler Handler.get_workloads) s.exporter.log
        (handle setup Handler.get_workloads input s).1 (λ i. ground arith)
        (handle-Adds setup Handler.get_workloads input s)
  handle-creations Handler.patch_workload input s =
      idle (powers_of_handler Handler.patch_workload) s.exporter.log
        (handle setup Handler.patch_workload input s).1 (λ i. ground arith)
        (handle-Adds setup Handler.patch_workload input s)
  handle-creations Handler.delete_completed input s =
      idle (powers_of_handler Handler.delete_completed) s.exporter.log
        (handle setup Handler.delete_completed input s).1 (λ i. ground arith)
        (handle-Adds setup Handler.delete_completed input s)
  handle-creations Handler.delete_pending_last input s =
      idle (powers_of_handler Handler.delete_pending_last) s.exporter.log
        (handle setup Handler.delete_pending_last input s).1 (λ i. ground arith)
        (handle-Adds setup Handler.delete_pending_last input s)
  handle-creations Handler.get_cpu_usage input s =
      idle (powers_of_handler Handler.get_cpu_usage) s.exporter.log
        (handle setup Handler.get_cpu_usage input s).1 (λ i. ground arith)
        (handle-Adds setup Handler.get_cpu_usage input s)
  handle-creations Handler.get_cpu_diff input s =
      idle (powers_of_handler Handler.get_cpu_diff) s.exporter.log
        (handle setup Handler.get_cpu_diff input s).1 (λ i. ground arith)
        (handle-Adds setup Handler.get_cpu_diff input s)
  handle-creations (Handler.get_switch k) input s =
      idle (powers_of_handler (Handler.get_switch k)) s.exporter.log
        (handle setup (Handler.get_switch k) input s).1 (λ i. ground arith)
        (handle-Adds setup (Handler.get_switch k) input s)
  handle-creations (Handler.put_switch k) input s =
      idle (powers_of_handler (Handler.put_switch k)) s.exporter.log
        (handle setup (Handler.put_switch k) input s).1 (λ i. ground arith)
        (handle-Adds setup (Handler.put_switch k) input s)

  pub round_of-creations :
      (k : Name) (s : System F Q)
      → s.spawn.spawn_count ≤ 4
      → IsWithin (creations s.exporter.log) (round_budget k) (round_of setup k s).1
  unfolding round_of Tawa.reconcile
  round_of-creations Name.automatic_job_spawn s h =
      let (bound, created) =
        reconcile-IsCounted setup.env (settings_of setup s)
          (record { own = s.spawn; log = s.exporter.log }) h in
      (created, bound)
  round_of-creations Name.self_driving s h = (
    idle (powers_of_round Name.self_driving) s.exporter.log (round_of setup Name.self_driving s).1
        (λ i. ground arith) (round_of-Adds setup Name.self_driving s),
    h,
  )
  round_of-creations Name.schedulable s h = (
    idle (powers_of_round Name.schedulable) s.exporter.log (round_of setup Name.schedulable s).1
        (λ i. ground arith) (round_of-Adds setup Name.schedulable s),
    h,
  )
  round_of-creations Name.tawa s h = (
    idle (powers_of_round Name.tawa) s.exporter.log (round_of setup Name.tawa s).1
        (λ i. ground arith) (round_of-Adds setup Name.tawa s),
    h,
  )
  round_of-creations Name.server_on_off s h = (
    idle (powers_of_round Name.server_on_off) s.exporter.log (round_of setup Name.server_on_off s).1
        (λ i. ground arith) (round_of-Adds setup Name.server_on_off s),
    h,
  )
  round_of-creations Name.reduce_targets s h = (
    idle (powers_of_round Name.reduce_targets) s.exporter.log
        (round_of setup Name.reduce_targets s).1 (λ i. ground arith)
        (round_of-Adds setup Name.reduce_targets s),
    h,
  )
