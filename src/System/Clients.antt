-- ===== src/System/Clients.antt =====
-- Which calls the operations of the clients make, for any predicate that holds for the calls that
-- read, and for those that each operation makes beside them.
use target_exporter.Prelude.{
  ◌≡◌, refl, Bool, Bool-cases, inl, inr, true, false, String, List, [], ◌∷◌, Dict, keep, eqb,
}
use target_exporter.Outcome.{ok, Outcome, ◌>>=◌, lift, pure}
use target_exporter.World.{Quantity, Time, Pod, Job, Event, Env, call, observe}
use target_exporter.World.Calls.{Calls, call-Calls, stay-Calls, lift-Calls, >>=-Calls}
use target_exporter.Promclient.{
  get_cpu_usage_by_range_seconds, get_current_cpu_diff, get_node_cpu_diff,
  get_current_energy_consumption, get_cpu_counts, get_avg_cpu_usages,
}
use target_exporter.Pyzhm.{predict}
use target_exporter.Kubeclient.{
  get_pods_in_namespace, get_pod_node_name, is_job_completed, delete_job, delete_pod, is_succeeded,
  clear_jobs, clear_pods, clear_completed_workloads, owns_any, sort_by_creation,
  delete_job_foreground, delete_first_pending, pick_pending, delete_pending_workload,
  get_suspended_jobs, spawn_new_workload,
}
use target_exporter.Kubeclient.Builder.{StressJob, render_at, render_k8s_job}
use target_exporter.System.Powers.{Kind, kind}

module _ {F Q : Type 0} (S : Type 0) (env : Env F Q) (P : Event Q → Type 0)
    (read : (e : Event Q) → kind e ≡ Kind.ask → P e) where
  -- A call that reads, followed by a computation on its answer.
  pub read-Calls :
      {A B : Type 0} (e : Event Q) (answer : List (Event Q) → Outcome A) (k : A → Outcome B)
      → kind e ≡ Kind.ask
      → Calls {S = S} P (call e answer >>= λ a. lift (k a))
  read-Calls e answer k h =
      >>=-Calls P (call e answer) _ (call-Calls P e answer (read e h)) (λ a. lift-Calls P (k a))

  pub get_cpu_counts-Calls : Calls {S = S} P (get_cpu_counts env)
  unfolding get_cpu_counts
  get_cpu_counts-Calls = read-Calls (Event.query _) env.samples _ refl

  pub get_current_cpu_diff-Calls : Calls {S = S} P (get_current_cpu_diff env)
  unfolding get_current_cpu_diff
  get_current_cpu_diff-Calls = read-Calls (Event.query _) env.samples _ refl

  pub get_node_cpu_diff-Calls : (node : String) → Calls {S = S} P (get_node_cpu_diff env node)
  unfolding get_node_cpu_diff
  get_node_cpu_diff-Calls node = read-Calls (Event.query _) env.samples _ refl

  pub get_current_energy_consumption-Calls : Calls {S = S} P (get_current_energy_consumption env)
  unfolding get_current_energy_consumption
  get_current_energy_consumption-Calls = read-Calls (Event.query _) env.samples _ refl

  pub get_avg_cpu_usages-Calls : Calls {S = S} P (get_avg_cpu_usages env)
  unfolding get_avg_cpu_usages
  get_avg_cpu_usages-Calls = read-Calls (Event.query _) env.samples _ refl

  pub get_cpu_usage_by_range_seconds-Calls :
      (from until : Time) → Calls {S = S} P (get_cpu_usage_by_range_seconds env from until)
  unfolding get_cpu_usage_by_range_seconds
  get_cpu_usage_by_range_seconds-Calls from until =
      read-Calls (Event.query_range _ _ _) env.series _ refl

  pub get_pods_in_namespace-Calls : Calls {S = S} P (get_pods_in_namespace env)
  unfolding get_pods_in_namespace
  get_pods_in_namespace-Calls = call-Calls P _ env.pods (read _ refl)

  pub get_pod_node_name-Calls : (name : String) → Calls {S = S} P (get_pod_node_name env name)
  unfolding get_pod_node_name
  get_pod_node_name-Calls name =
      read-Calls (Event.get_pod name) (env.pod_named name) (λ pod. ok pod.node_name) refl

  pub get_suspended_jobs-Calls : Calls {S = S} P (get_suspended_jobs env)
  unfolding get_suspended_jobs
  get_suspended_jobs-Calls = read-Calls Event.list_jobs env.jobs _ refl

  pub predict-Calls :
      (address : String) (scenario requirements : Dict F)
      → Calls {S = S} P (predict env address scenario requirements)
  unfolding predict
  predict-Calls address scenario requirements =
      >>=-Calls P (lift (env.marshal_scenario scenario requirements)) _ (lift-Calls P _) λ payload.
        >>=-Calls P (call (Event.post _ payload) env.post_reply) _
          (call-Calls P _ env.post_reply (read _ refl))
          λ response.
            >>=-Calls P (lift response) _ (lift-Calls P _)
              (λ body. lift-Calls P (env.unmarshal_predictions body))

module _ {F Q : Type 0} (S : Type 0) (env : Env F Q) (P : Event Q → Type 0)
    (read : (e : Event Q) → kind e ≡ Kind.ask → P e)
    (delete : (e : Event Q) → kind e ≡ Kind.delete → P e) where
  clear_jobs-Calls : (jobs : List Job) → Calls {S = S} P (clear_jobs env jobs)
  unfolding clear_jobs delete_job
  clear_jobs-Calls [] = stay-Calls P (clear_jobs env []) (λ st. refl)
  clear_jobs-Calls (job ∷ rest) = record {
    calls = λ st. elim (Bool-cases (is_job_completed job)) [
      | inl e ↦
          rw (e, clear_jobs)
            ((>>=-Calls P (delete_job env job.name) (λ _. clear_jobs env rest)
                (call-Calls P _ env.acknowledge (delete _ refl)) (λ _. clear_jobs-Calls rest)).calls
              st)
      | inr e ↦ rw (e, clear_jobs) ((clear_jobs-Calls rest).calls st)
    ];
  }

  clear_pods-Calls :
      (done : Bool) (pods : List (Pod Q)) → Calls {S = S} P (clear_pods env done pods)
  unfolding clear_pods delete_pod
  clear_pods-Calls done [] = stay-Calls P (clear_pods env done []) (λ st. refl)
  clear_pods-Calls done (pod ∷ rest) = record {
    calls = λ st. elim (Bool-cases (is_succeeded pod.phase)) [
      | inl e ↦
          rw (e, clear_pods)
            ((>>=-Calls P (delete_pod env pod.name) (λ _. clear_pods env true rest)
                (call-Calls P _ env.acknowledge (delete _ refl))
                (λ _. clear_pods-Calls true rest)).calls
              st)
      | inr e ↦ rw (e, clear_pods) ((clear_pods-Calls done rest).calls st)
    ];
  }

  pub clear_completed_workloads-Calls : Calls {S = S} P (clear_completed_workloads env)
  unfolding clear_completed_workloads
  clear_completed_workloads-Calls =
      >>=-Calls P (call Event.list_jobs env.jobs) _ (call-Calls P _ env.jobs (read _ refl)) λ jobs.
        >>=-Calls P (clear_jobs env jobs) _ (clear_jobs-Calls jobs) λ _.
          >>=-Calls P (call Event.list_pods env.pods) _ (call-Calls P _ env.pods (read _ refl))
            (clear_pods-Calls false)

  delete_first_pending-Calls :
      (pods : List (Pod Q)) (jobs : List Job) → Calls {S = S} P (delete_first_pending env pods jobs)
  unfolding delete_first_pending delete_job_foreground
  delete_first_pending-Calls pods [] = stay-Calls P (delete_first_pending env pods []) (λ st. refl)
  delete_first_pending-Calls pods (job ∷ rest) = record {
    calls = λ st. elim (Bool-cases (owns_any job pods)) [
      | inl e ↦
          rw (e, delete_first_pending)
            ((>>=-Calls P (delete_job_foreground env job.name) (λ _. pure true)
                (call-Calls P _ env.acknowledge (delete _ refl))
                (λ _. lift-Calls P (ok true))).calls
              st)
      | inr e ↦ rw (e, delete_first_pending) ((delete_first_pending-Calls pods rest).calls st)
    ];
  }

  pick_pending-Calls : (jobs : List Job) → Calls {S = S} P (pick_pending env jobs)
  unfolding pick_pending
  pick_pending-Calls [] = lift-Calls P (ok false)
  pick_pending-Calls (job ∷ rest) =
      >>=-Calls P (call Event.list_pending_pods env.pending_pods) _
        (call-Calls P _ env.pending_pods (read _ refl))
        (λ pods. delete_first_pending-Calls pods (sort_by_creation (job ∷ rest)))

  pub delete_pending_workload-Calls : Calls {S = S} P (delete_pending_workload env)
  unfolding delete_pending_workload
  delete_pending_workload-Calls =
      >>=-Calls P (call Event.list_jobs env.jobs) _ (call-Calls P _ env.jobs (read _ refl))
        (λ jobs. pick_pending-Calls (keep (λ job. eqb job.succeeded 0) jobs))

module _ {F Q : Type 0} ⦃q : Quantity Q⦄ (S : Type 0) (env : Env F Q) (P : Event Q → Type 0)
    (create : (e : Event Q) → kind e ≡ Kind.create → P e) where
  pub spawn_new_workload-Calls :
      (job : StressJob F Q) → Calls {S = S} P (spawn_new_workload env job)
  unfolding spawn_new_workload render_k8s_job
  spawn_new_workload-Calls job =
      >>=-Calls P (render_k8s_job env job) _
        (>>=-Calls P (lift env.decoded_prototype) _ (lift-Calls P _) λ m.
          >>=-Calls P (observe env.now) _ (stay-Calls P (observe env.now) (λ st. refl))
            (λ now. lift-Calls P (render_at env job now m)))
        (λ manifest. call-Calls P _ env.acknowledge (create _ refl))
