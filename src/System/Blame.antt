-- ===== src/System/Blame.antt =====
-- Every call that leaves the process is one that something that has happened may make.
use target_exporter.Prelude.{
  ◌≡◌, refl, sym, append-nil, inl, inr, List, [], ◌∷◌, ◌++◌, All, All-append, In,
}
use target_exporter.Float.{Float64}
use target_exporter.World.{Quantity, Event, Log, St}
use target_exporter.World.Calls.{All-weaker, weaker-Calls}
use target_exporter.Scheduling.SelfDriving.Patches.{IsMild, reconcile-Calls}
use target_exporter.Scheduling.ServerOnOff.Asking.{IsAsking, reconcile-Asking}
use target_exporter.Scheduling.Orchestrator.{check_start_jobs}
use target_exporter.Scheduling.Tawa
use target_exporter.Infrastructure.Switching.{Name}
use target_exporter.Infrastructure.Routes.{Handler, Input}
use target_exporter.Infrastructure.Exporter.{
  targets_posted, schedulable_stopped, round_of_schedulable, round_of_reduce_targets,
}
use target_exporter.System.{System, Setup, calling, settings_of, handle, round_of}
use target_exporter.System.Running.{Act, Step, Run}
use target_exporter.System.Powers.{
  Kind, powers_of_handler, powers_of_round, powers, IsOf, reads, reads_and,
}
use target_exporter.System.Requests.{
  get_workloads-Calls, get_current_cpu_diff_response-Calls,
  get_cpu_usage_by_range_seconds_response-Calls, delete_workloads_completed-Calls,
  delete_workloads_pending_last-Calls, patch_workload-Calls, post_workloads-Calls,
  post_job_scenario-Calls,
}
use target_exporter.System.Rounds.{
  schedule-Calls, reduce-Calls, spawn-Calls, check_start_jobs-Calls,
}

module _ {F Q : Type 0} where
  -- Beside its other effects a step makes calls of these kinds only.
  abbrev pub Adds : List Kind → Log Q → System F Q → Type 0
  Adds kinds log t = (new : Log Q) × (t.exporter.log ≡ log ++ new) × All (IsOf kinds) new

module _ {F Q : Type 0} where
  -- Some act may make the call.
  abbrev pub IsBlamed : List (Act F) → Event Q → Type 0
  IsBlamed acts e = (a : Act F) × In a acts × IsOf (powers a) e

mild-IsOf : {Q : Type 0} (e : Event Q) → IsMild e → IsOf (reads_and Kind.patch) e
mild-IsOf (Event.query t) h = inl refl
mild-IsOf Event.list_pods h = inl refl
mild-IsOf (Event.patch_cpu_limit name limit) h = inr (inl refl)
mild-IsOf _ h = absurd h

asking-IsOf : {Q : Type 0} (e : Event Q) → IsAsking e → IsOf (reads_and Kind.connect) e
asking-IsOf (Event.query text) h = inl refl
asking-IsOf (Event.ipmi_open client) h = inr (inl refl)
asking-IsOf (Event.ipmi_close client) h = inr (inl refl)
asking-IsOf (Event.ipmi_status client) h = inr (inl refl)
asking-IsOf _ h = absurd h

module _ {F Q : Type 0} ⦃f : Float64 F⦄ ⦃q : Quantity Q⦄ (setup : Setup F Q) where
  none_new : (kinds : List Kind) (s : System F Q) → Adds kinds s.exporter.log s
  none_new kinds s = ([], sym (append-nil s.exporter.log), tt)

  abbrev pub log_of : System F Q → St (Unit {0}) Q
  log_of s = record { own = tt; log = s.exporter.log }

  pub handle-Adds :
      (h : Handler) (input : Input F) (s : System F Q)
      → Adds (powers_of_handler h) s.exporter.log (handle setup h input s).1
  unfolding handle targets_posted
  handle-Adds Handler.get_targets input s = none_new [] s
  handle-Adds Handler.post_targets input s = none_new [] s
  handle-Adds Handler.get_workloads input s =
      (get_workloads-Calls setup.env (IsOf reads) (λ e h. inl h)).calls (log_of s)
  handle-Adds Handler.post_workloads input s =
      (post_workloads-Calls setup.env (settings_of setup s) (IsOf (reads_and Kind.create))
          (λ e h. inl h) (λ e h. inr (inl h)) input.workload).calls
        (log_of s)
  handle-Adds Handler.patch_workload input s =
      (patch_workload-Calls setup.env (IsOf (reads_and Kind.patch)) (λ e h. inl h) input.workload
          (λ e h. inr (inl h))).calls
        (log_of s)
  handle-Adds Handler.delete_completed input s =
      (delete_workloads_completed-Calls setup.env (IsOf (reads_and Kind.delete)) (λ e h. inl h)
          (λ e h. inr (inl h))).calls
        (log_of s)
  handle-Adds Handler.delete_pending_last input s =
      (delete_workloads_pending_last-Calls setup.env (IsOf (reads_and Kind.delete)) (λ e h. inl h)
          (λ e h. inr (inl h))).calls
        (log_of s)
  handle-Adds Handler.get_cpu_usage input s =
      (get_cpu_usage_by_range_seconds_response-Calls setup.env (IsOf reads) (λ e h. inl h)
          input.start input.end).calls
        (log_of s)
  handle-Adds Handler.get_cpu_diff input s =
      (get_current_cpu_diff_response-Calls setup.env (IsOf reads) (λ e h. inl h)).calls (log_of s)
  handle-Adds (Handler.get_switch k) input s = none_new [] s
  handle-Adds (Handler.put_switch k) input s = none_new [] s
  handle-Adds Handler.post_job_scenario input s =
      (post_job_scenario-Calls setup.env (settings_of setup s) (IsOf (reads_and Kind.create))
          (λ e h. inl h) (λ e h. inr (inl h)) input.scenario).calls
        (log_of s)

  pub round_of-Adds :
      (k : Name) (s : System F Q) → Adds (powers_of_round k) s.exporter.log (round_of setup k s).1
  unfolding round_of round_of_schedulable round_of_reduce_targets Tawa.reconcile
  round_of-Adds Name.self_driving s =
      (weaker-Calls mild-IsOf (reconcile-Calls setup.env s.exporter.targets)).calls
        (record { own = s.skip_list; log = s.exporter.log })
  round_of-Adds Name.schedulable s =
      (schedule-Calls setup.env (IsOf reads) (λ e h. inl h)).calls
        (record { own = s.exporter.schedulable; log = s.exporter.log })
  round_of-Adds Name.tawa s = none_new [] s
  round_of-Adds Name.server_on_off s =
      (weaker-Calls asking-IsOf (reconcile-Asking setup.env setup.ipmi setup.fuel)).calls
        (record { own = s.switches; log = s.exporter.log })
  round_of-Adds Name.reduce_targets s =
      (reduce-Calls setup.env (IsOf reads) (λ e h. inl h) setup.setpoints).calls
        (record { own = s.exporter.targets; log = s.exporter.log })
  round_of-Adds Name.automatic_job_spawn s =
      (spawn-Calls setup.env (settings_of setup s) (IsOf (reads_and Kind.create)) (λ e h. inl h)
          (λ e h. inr (inl h))).calls
        (record { own = s.spawn; log = s.exporter.log })

  pub start_jobs-Adds :
      (s : System F Q)
      → Adds (reads_and Kind.resume) s.exporter.log (calling (check_start_jobs setup.env) s).1
  start_jobs-Adds s =
      (check_start_jobs-Calls (Unit {0}) setup.env (IsOf (reads_and Kind.resume)) (λ e h. inl h)
          (λ e h. inr (inl h))).calls
        (log_of s)

  Step-Adds : {s t : System F Q} {a : Act F} → Step setup s a t → Adds (powers a) s.exporter.log t
  unfolding schedulable_stopped
  Step-Adds {s} (Step.handle_request h input) = handle-Adds h input s
  Step-Adds {s} (Step.move k l t inner step) = none_new [] s
  Step-Adds {s} (Step.reconcile k t step over) = round_of-Adds k s
  Step-Adds {s} Step.start_jobs = start_jobs-Adds s
  Step-Adds {s} (Step.mark n e) = none_new [] s

  -- In every run, from a state in which no call has been made, each call was made by something that
  -- has happened, and is of a kind that the table of powers grants it: only requests that add
  -- workloads, and rounds of the automatic job spawn, create jobs; only the two DELETE requests
  -- delete jobs or pods; only PATCH requests and rounds of the self-driving strategy patch a CPU
  -- limit; only CheckStartJobs ends a suspension; and only rounds of the server on/off strategy
  -- use IPMI. This holds for every answer of the services, also when a step ends in a panic.
  pub Run-IsBlamed :
      {first s : System F Q} {acts : List (Act F)}
      → first.exporter.log ≡ []
      → Run setup first acts s
      → All (IsBlamed acts) s.exporter.log
  Run-IsBlamed silent Run.here = rw silent tt
  Run-IsBlamed silent (Run.next {acts} {a} before up step) =
      let (new, same, fine) = Step-Adds step in
      let earlier = Run-IsBlamed silent before in
      rw same (
        All-append (IsBlamed (a ∷ acts)) _ new
          (All-weaker _ (λ e (b, at, of). (b, inr at, of)) earlier)
          (All-weaker new (λ e of. (a, inl refl, of)) fine))
