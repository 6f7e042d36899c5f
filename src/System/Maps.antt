-- ===== src/System/Maps.antt =====
-- The program's steps, seen from the maps of targets and flags: the whole program implements the runs
-- of the parts that share them.
use target_exporter.Prelude.{
  ◌≡◌, refl, sym, subst, append-nil, append_assoc, All, ℕ, Bool, true, false, ◌||◌, List, [], ◌∷◌,
  ◌++◌, Dict,
}
use target_exporter.Float.{Float64}
use target_exporter.World.{Quantity, Log}
use target_exporter.Scheduling.Tawa
use target_exporter.Serverswitch.{IpmiServerSwitch}
use target_exporter.Infrastructure.Switching.{Name}
use target_exporter.Infrastructure.Routes.{Handler, Input}
use target_exporter.Infrastructure.Exporter
use target_exporter.Infrastructure.Exporter.{TargetExporter, schedulable_stopped}
use target_exporter.System.{System, Setup, new_system, handle, round_of}
use target_exporter.System.Running.{Act, Step, Run}
use target_exporter.System.Powers.{Kind, IsOf, reads_and, powers_of_handler, powers_of_round}
use target_exporter.System.Blame.{handle-Adds, round_of-Adds, start_jobs-Adds}

-- The nodes have been marked by a Stop of the schedulable strategy.
abbrev is_mark : {F : Type 0} → Act F → Bool
is_mark Act.mark_all = true
is_mark _ = false

abbrev pub is_marked : {F : Type 0} → List (Act F) → Bool
is_marked [] = false
is_marked (a ∷ acts) = is_marked acts || is_mark a

or_false : (b : Bool) → b ≡ (b || false)
or_false true = refl
or_false false = refl

module _ {F Q : Type 0} ⦃f : Float64 F⦄ ⦃q : Quantity Q⦄ (setup : Setup F Q) (config : Dict F) where
  abbrev Reaches : Bool → TargetExporter F Q → Type 0
  Reaches b t = Exporter.Run setup.env setup.setpoints config b t

  -- Calls of other parts.
  others :
      {b : Bool} (t : TargetExporter F Q) (new : Log Q)
      → Reaches b t
      → Reaches b (record t { log = t.log ++ new })
  others {b} t [] r = subst (λ log. Reaches b (record t { log = log })) (sym (append-nil t.log)) r
  others {b} t (e ∷ new) r =
      let once : Reaches b (record t { log = t.log ++ (e ∷ []) }) =
        subst (λ c. Reaches c (record t { log = t.log ++ (e ∷ []) })) (sym (or_false b))
          (Exporter.Run.then r (Exporter.Step.other e t)) in
      subst (λ log. Reaches b (record t { log = log })) (append_assoc t.log (e ∷ []) new)
        (others (record t { log = t.log ++ (e ∷ []) }) new once)

  adds :
      {b : Bool} (t : TargetExporter F Q) (log new : Log Q)
      → log ≡ t.log ++ new
      → Reaches b t
      → Reaches b (record t { log = log })
  adds {b} t log new e r = subst (λ l. Reaches b (record t { log = l })) (sym e) (others t new r)

  -- A step whose only effect on the exporter is calls.
  calls_Reaches :
      {b : Bool} (kinds : List Kind) (s : System F Q) (log : Log Q)
      → (new : Log Q) × (log ≡ s.exporter.log ++ new) × All (IsOf kinds) new
      → Reaches b s.exporter
      → Reaches b (record s.exporter { log = log })
  calls_Reaches kinds s log (new, same, fine) r = adds s.exporter log new same r

  unmarked : {b : Bool} {t : TargetExporter F Q} → Reaches b t → Reaches (b || false) t
  unmarked {b} {t} r = subst (λ c. Reaches c t) (or_false b) r

  -- The step of another part, on the exporter's fields.
  one :
      {b : Bool} {t u : TargetExporter F Q}
      → Exporter.Step setup.env setup.setpoints false t u
      → Reaches b t
      → Reaches b u
  one {b} {t} {u} step r = subst (λ c. Reaches c u) (sym (or_false b)) (Exporter.Run.then r step)

  handle-Reaches :
      {b : Bool} (h : Handler) (input : Input F) (s : System F Q)
      → Reaches b s.exporter
      → Reaches b (handle setup h input s).1.exporter
  unfolding handle
  handle-Reaches Handler.get_targets input s r = r
  handle-Reaches Handler.post_targets input s r =
      one (Exporter.Step.post input.targets s.exporter) r
  handle-Reaches (Handler.get_switch k) input s r = r
  handle-Reaches (Handler.put_switch k) input s r = r
  handle-Reaches Handler.get_workloads input s r =
      calls_Reaches (powers_of_handler Handler.get_workloads) s _
        (handle-Adds setup Handler.get_workloads input s) r
  handle-Reaches Handler.post_workloads input s r =
      calls_Reaches (powers_of_handler Handler.post_workloads) s _
        (handle-Adds setup Handler.post_workloads input s) r
  handle-Reaches Handler.patch_workload input s r =
      calls_Reaches (powers_of_handler Handler.patch_workload) s _
        (handle-Adds setup Handler.patch_workload input s) r
  handle-Reaches Handler.delete_completed input s r =
      calls_Reaches (powers_of_handler Handler.delete_completed) s _
        (handle-Adds setup Handler.delete_completed input s) r
  handle-Reaches Handler.delete_pending_last input s r =
      calls_Reaches (powers_of_handler Handler.delete_pending_last) s _
        (handle-Adds setup Handler.delete_pending_last input s) r
  handle-Reaches Handler.get_cpu_usage input s r =
      calls_Reaches (powers_of_handler Handler.get_cpu_usage) s _
        (handle-Adds setup Handler.get_cpu_usage input s) r
  handle-Reaches Handler.get_cpu_diff input s r =
      calls_Reaches (powers_of_handler Handler.get_cpu_diff) s _
        (handle-Adds setup Handler.get_cpu_diff input s) r
  handle-Reaches Handler.post_job_scenario input s r =
      calls_Reaches (powers_of_handler Handler.post_job_scenario) s _
        (handle-Adds setup Handler.post_job_scenario input s) r

  round_of-Reaches :
      {b : Bool} (k : Name) (s : System F Q)
      → Reaches b s.exporter
      → Reaches b (round_of setup k s).1.exporter
  unfolding round_of Tawa.reconcile
  round_of-Reaches Name.schedulable s r = one (Exporter.Step.schedule s.exporter) r
  round_of-Reaches Name.reduce_targets s r = one (Exporter.Step.reduce s.exporter) r
  round_of-Reaches Name.tawa s r = r
  round_of-Reaches Name.self_driving s r =
      calls_Reaches (powers_of_round Name.self_driving) s _
        (round_of-Adds setup Name.self_driving s) r
  round_of-Reaches Name.server_on_off s r =
      calls_Reaches (powers_of_round Name.server_on_off) s _
        (round_of-Adds setup Name.server_on_off s) r
  round_of-Reaches Name.automatic_job_spawn s r =
      calls_Reaches (powers_of_round Name.automatic_job_spawn) s _
        (round_of-Adds setup Name.automatic_job_spawn s) r

  Step-Reaches :
      {b : Bool} {s t : System F Q} {a : Act F}
      → Step setup s a t
      → Reaches b s.exporter
      → Reaches (b || is_mark a) t.exporter
  Step-Reaches {b} {s} (Step.handle_request h input) r = unmarked (handle-Reaches h input s r)
  Step-Reaches {b} {s} (Step.move k l t inner step) r = unmarked r
  Step-Reaches {b} {s} (Step.reconcile k t step over) r = unmarked (round_of-Reaches k s r)
  Step-Reaches {b} {s} Step.start_jobs r =
      unmarked (calls_Reaches (reads_and Kind.resume) s _ (start_jobs-Adds setup s) r)
  Step-Reaches {b} {s} (Step.mark n e) r = Exporter.Run.then r (Exporter.Step.stop s.exporter)

  -- Each run of the whole program is, on the two maps and the calls made, a run of the parts that share
  -- the maps: requests that post targets, the rounds of the two strategies, and Stop's marking are
  -- its steps, and everything else only adds calls.
  pub Run-Run :
      (switches : Dict IpmiServerSwitch) (now : ℕ) {s : System F Q} {acts : List (Act F)}
      → Run setup (new_system config switches now) acts s
      → Exporter.Run setup.env setup.setpoints config (is_marked acts) s.exporter
  unfolding new_system
  Run-Run switches now Run.here = Exporter.Run.started
  Run-Run switches now (Run.next before up step) = Step-Reaches step (Run-Run switches now before)
