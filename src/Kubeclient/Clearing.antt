-- ===== src/Kubeclient/Clearing.antt =====
-- Which deletions ClearCompletedWorkloads makes.
use target_exporter.Prelude.{
  ◌≡◌, Bool, true, false, List, [], ◌∷◌, ◌++◌, map, keep, append_assoc, append-nil, arith,
  if◌then◌else◌, ◌||◌,
}
use target_exporter.Outcome.{ok}
use target_exporter.World.{Pod, Job, Event, Log, Env, St}
use target_exporter.Kubeclient.{
  is_job_completed, is_succeeded, delete_job, delete_pod, clear_jobs, clear_pods,
  clear_completed_workloads,
}

module _ {Q : Type 0} where
  abbrev pub job_deletions : List Job → Log Q
  job_deletions jobs = map (λ job. Event.delete_job job.name) (keep is_job_completed jobs)

  abbrev pub pod_deletions : List (Pod Q) → Log Q
  pod_deletions pods =
      map (λ pod. Event.delete_pod pod.name) (keep (λ pod. is_succeeded pod.phase) pods)

  abbrev pub is_some_succeeded : List (Pod Q) → Bool
  is_some_succeeded [] = false
  is_some_succeeded (pod ∷ rest) = if is_succeeded pod.phase then true else is_some_succeeded rest

module _ {F Q S : Type 0} (env : Env F Q) where
  clear_jobs-ok :
      (jobs : List Job) (st : St S Q)
      → (clear_jobs env jobs st).0 ≡ ok tt
      → (clear_jobs env jobs st).1 ≡ record st { log = st.log ++ job_deletions jobs }
  unfolding clear_jobs delete_job
  clear_jobs-ok [] st h = ground (arith, append-nil st.log)
  clear_jobs-ok (job ∷ rest) st h =
      let e : Event Q = Event.delete_job job.name in
      ground (
        arith,
        append_assoc st.log (e ∷ []) (job_deletions rest),
        clear_jobs-ok rest st,
        clear_jobs-ok rest (record st { log = st.log ++ (e ∷ []) }),
      )

  clear_pods-ok :
      (done : Bool) (pods : List (Pod Q)) (st : St S Q) (after : Bool)
      → (clear_pods env done pods st).0 ≡ ok after
      → ((clear_pods env done pods st).1 ≡ record st { log = st.log ++ pod_deletions pods })
        × (after ≡ (done || is_some_succeeded pods))
  unfolding clear_pods delete_pod
  clear_pods-ok done [] st after h = ground (arith, append-nil st.log)
  clear_pods-ok done (pod ∷ rest) st after h =
      let e : Event Q = Event.delete_pod pod.name in
      ground (
        arith,
        append_assoc st.log (e ∷ []) (pod_deletions rest),
        clear_pods-ok done rest st after,
        clear_pods-ok true rest (record st { log = st.log ++ (e ∷ []) }) after,
      )

  -- When ClearCompletedWorkloads succeeds, it has asked for the jobs, deleted just the jobs with no
  -- active and some succeeded pod, asked for the pods, and deleted just those that succeeded, in the
  -- order of the two answers. Its result says whether it deleted a pod, and nothing of the jobs.
  pub clear_completed_workloads-ok :
      (st : St S Q) (jobs : List Job) (pods : List (Pod Q)) (done : Bool)
      → let cleared = (st.log ++ (Event.list_jobs ∷ [])) ++ job_deletions jobs in
        env.jobs st.log ≡ ok jobs
        → env.pods cleared ≡ ok pods
        → (clear_completed_workloads env st).0 ≡ ok done
        → ((clear_completed_workloads env st).1
            ≡ record st { log = (cleared ++ (Event.list_pods ∷ [])) ++ pod_deletions pods })
          × (done ≡ is_some_succeeded pods)
  unfolding clear_completed_workloads
  clear_completed_workloads-ok st jobs pods done ej ep h =
      let asked : St S Q = record st { log = st.log ++ (Event.list_jobs ∷ []) } in
      let cleared = asked.log ++ job_deletions jobs in
      ground (
        arith,
        clear_jobs-ok jobs asked,
        clear_pods-ok false pods (record st { log = cleared ++ (Event.list_pods ∷ []) }) done,
      )
