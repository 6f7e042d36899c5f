-- ===== src/System/Rounds.antt =====
-- Which calls the rounds of the strategies and of CheckStartJobs make.
use target_exporter.Prelude.{
  ◌≡◌, refl, sym, ◌∙◌, append-nil, Bool-cases, inl, inr, String, List, [], ◌∷◌, Dict, lookup, ltb,
  ◌==◌, Option-cases,
}
use target_exporter.Float.{Float64}
use target_exporter.Outcome.{ok, err, panic, Outcome, Action, modify}
use target_exporter.World.{Quantity, Job, Event, Env, St, within}
use target_exporter.World.Calls.{Calls, call-Calls, stay-Calls, >>=-Calls, for_each_body-Calls}
use target_exporter.Promclient.{
  NodeCpuUsage, text_or_empty, get_current_cpu_diff, get_avg_cpu_usages,
}
use target_exporter.Kubeclient.{start_suspended_job, get_suspended_jobs}
use target_exporter.Kubeclient.Builder.{job_start_date_annotation}
use target_exporter.Scheduling.{Target, Schedulable}
use target_exporter.Scheduling.SchedulableStrategy
use target_exporter.Scheduling.SchedulableStrategy.{reconcile_answer}
use target_exporter.Scheduling.ReduceTargets
use target_exporter.Scheduling.ReduceTargets.{reduce_answer}
use target_exporter.Scheduling.AutomaticJobSpawn
use target_exporter.Scheduling.AutomaticJobSpawn.{
  AutomaticJobSpawn, count_up, reset_at, should_spawn, last_usage, spawn_job, visit_diffs,
}
use target_exporter.Scheduling.Orchestrator.{
  Settings, parsed_date, listed, check_job, check_start_jobs,
}
use target_exporter.System.Powers.{Kind, kind}
use target_exporter.System.Clients.{
  get_cpu_counts-Calls, get_current_cpu_diff-Calls, get_avg_cpu_usages-Calls,
  get_suspended_jobs-Calls,
}
use target_exporter.System.Requests.{add_workload-Calls}

module _ {S Q A B : Type 0} where
  -- The answer decides what is done to the own fields, and no more is called.
  quiet-Calls :
      (P : Event Q → Type 0) (m : Action (St S Q) A) (k : Outcome A → Action (St S Q) B)
      → Calls P m
      → ((o : Outcome A) (st : St S Q) → (k o st).1.log ≡ st.log)
      → Calls P (λ st. k (m st).0 (m st).1)
  quiet-Calls P m k hm same = record {
    calls = λ st. let (new, e, fine) = hm.calls st in (new, same (m st).0 (m st).1 ∙ e, fine);
  }

module _ {F Q : Type 0} ⦃f : Float64 F⦄ (env : Env F Q) (P : Event Q → Type 0)
    (read : (e : Event Q) → kind e ≡ Kind.ask → P e) where
  pub schedule-Calls : Calls {S = Dict (Schedulable F)} P (SchedulableStrategy.reconcile env)
  unfolding SchedulableStrategy.reconcile reconcile_answer
  schedule-Calls =
      quiet-Calls P (get_current_cpu_diff env) reconcile_answer
        (get_current_cpu_diff-Calls (Dict (Schedulable F)) env P read) same
    where
      same :
          (o : Outcome (List (NodeCpuUsage F))) (st : St (Dict (Schedulable F)) Q)
          → (reconcile_answer o st).1.log ≡ st.log
      same (ok diffs) st = refl
      same (err e) st = refl
      same panic st = refl

  pub reduce-Calls :
      (setpoints : List F) → Calls {S = Dict (Target F)} P (ReduceTargets.reconcile env setpoints)
  unfolding ReduceTargets.reconcile reduce_answer
  reduce-Calls setpoints =
      quiet-Calls P (get_avg_cpu_usages env) (reduce_answer setpoints)
        (get_avg_cpu_usages-Calls (Dict (Target F)) env P read)
        (λ o st. elim o as (λ o. (reduce_answer setpoints o st).1.log ≡ st.log) [
          | ok averages ↦ refl
          | err e ↦ refl
          | panic ↦ refl
        ])

module _ {F Q : Type 0} ⦃f : Float64 F⦄ ⦃q : Quantity Q⦄ (env : Env F Q) (settings : Settings)
    (P : Event Q → Type 0) (read : (e : Event Q) → kind e ≡ Kind.ask → P e)
    (create : (e : Event Q) → kind e ≡ Kind.create → P e) where
  spawn_job-Calls : (node : String) → Calls {S = AutomaticJobSpawn} P (spawn_job env settings node)
  unfolding spawn_job
  spawn_job-Calls node =
      >>=-Calls P _ _ (get_cpu_counts-Calls AutomaticJobSpawn env P read)
        (λ counts. add_workload-Calls AutomaticJobSpawn env P read settings _ create)

  visit_diffs-Calls :
      (diffs : List (NodeCpuUsage F))
      → Calls {S = AutomaticJobSpawn} P (visit_diffs env settings diffs)
  unfolding visit_diffs
  visit_diffs-Calls [] = stay-Calls P (visit_diffs env settings []) (λ st. refl)
  visit_diffs-Calls (v ∷ rest) = record {
    calls = λ st.
        let now = env.now st.log in
        let st' = record st { own = reset_at now st.own } in
        elim (Option-cases (last_usage v.usages)) [
          | inl e ↦ rw (e, visit_diffs) ([], sym (append-nil st.log), tt)
          | inr (x, e) ↦
              elim (Bool-cases (should_spawn now x st'.own.spawn_count st'.own.reset_time)) [
                | inl b ↦
                    rw (e, b, visit_diffs)
                      ((>>=-Calls P (spawn_job env settings v.node_name)
                          (λ _. within (modify count_up)) (spawn_job-Calls v.node_name)
                          (λ _. stay-Calls P (within (modify count_up)) (λ s. refl))).calls
                        st')
                | inr b ↦ rw (e, b, visit_diffs) ((visit_diffs-Calls rest).calls st')
              ]
        ];
  }

  pub spawn-Calls : Calls {S = AutomaticJobSpawn} P (AutomaticJobSpawn.reconcile env settings)
  unfolding AutomaticJobSpawn.reconcile
  spawn-Calls =
      >>=-Calls P _ _ (get_current_cpu_diff-Calls AutomaticJobSpawn env P read) visit_diffs-Calls

module _ {F Q : Type 0} (S : Type 0) (env : Env F Q) (P : Event Q → Type 0)
    (read : (e : Event Q) → kind e ≡ Kind.ask → P e)
    (resume : (e : Event Q) → kind e ≡ Kind.resume → P e) where
  start_suspended_job-Calls : (name : String) → Calls {S = S} P (start_suspended_job env name)
  unfolding start_suspended_job
  start_suspended_job-Calls name =
      >>=-Calls P _ _ (call-Calls P _ (env.job_named name) (read _ refl))
        (λ job. call-Calls P _ env.acknowledge (resume _ refl))

  check_job-Calls : (job : Job) → Calls {S = S} P (check_job env job)
  unfolding check_job
  check_job-Calls job =
      let annotation = text_or_empty (lookup job_start_date_annotation job.annotations) in
      record {
        calls = λ st. elim (Bool-cases (annotation == "")) [
          | inl e ↦ rw (e, check_job) ([], sym (append-nil st.log), tt)
          | inr e ↦
              elim (Bool-cases (ltb (parsed_date (env.parse_date annotation)) (env.now st.log))) [
                | inl b ↦ rw (e, b, check_job) ((start_suspended_job-Calls job.name).calls st)
                | inr b ↦ rw (e, b, check_job) ([], sym (append-nil st.log), tt)
              ]
        ];
      }

  pub check_start_jobs-Calls : Calls {S = S} P (check_start_jobs env)
  unfolding check_start_jobs
  check_start_jobs-Calls =
      >>=-Calls P (λ st. (listed (get_suspended_jobs env st).0, (get_suspended_jobs env st).1)) _
        (record { calls = λ st. (get_suspended_jobs-Calls S env P read).calls st })
        (λ jobs. for_each_body-Calls P jobs _ check_job-Calls)
