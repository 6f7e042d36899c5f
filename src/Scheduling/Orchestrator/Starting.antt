-- ===== src/Scheduling/Orchestrator/Starting.antt =====
-- Which calls a round of CheckStartJobs makes.
use target_exporter.Prelude.{
  ℕ, suc, zero, ◌≡◌, refl, sym, ◌∙◌, ap, subst, append-nil, append_assoc, arith, ◌⊎◌, inl, inr,
  Bool-cases, false, String, some, List, [], ◌∷◌, ◌++◌, All, tally, replicate, ltb, lookup, ◌==◌,
}
use target_exporter.Outcome.{Outcome, ok, err, panic, and_then}
use target_exporter.World.{Job, Event, Log, Env, St, call}
use target_exporter.World.Calls.{Calls, for_each-Calls}
use target_exporter.Promclient.{text_or_empty}
use target_exporter.Kubeclient.{start_suspended_job, get_suspended_jobs}
use target_exporter.Kubeclient.Builder.{job_start_date_annotation}
use target_exporter.Kubeclient.Suspended.{HasSuspend, is_suspended, get_suspended_jobs-last}
use target_exporter.Scheduling.Orchestrator.{parsed_date, check_job, check_start_jobs}

replicate-All : {A : Type 0} (P : A → Type 0) (n : ℕ) (a : A) → P a → All P (replicate n a)
replicate-All P zero a p = tt
replicate-All P (suc n) a p = (p, replicate-All P n a p)

module _ {Q : Type 0} where
  -- The job of that name is read, or it is taken out of its suspension.
  abbrev pub IsStart : String → Event Q → Type 0
  IsStart name e = (e ≡ Event.get_job name) ⊎ (e ≡ Event.update_suspend name (some false))

  abbrev NewStarts : String → Log Q → Log Q → Type 0
  NewStarts name before after = (new : Log Q) × (after ≡ before ++ new) × All (IsStart name) new

  no_calls : (name : String) (log : Log Q) → NewStarts name log log
  no_calls name log = ([], sym (append-nil log), tt)

module _ {F Q : Type 0} (env : Env F Q) where
  -- A job that the cluster returns has the name that was asked for.
  abbrev pub AreNamed : Type 0
  AreNamed =
      (name : String) (log : Log Q) (job : Job) → env.job_named name log ≡ ok job → job.name ≡ name

module _ {F Q S : Type 0} (env : Env F Q) where
  started :
      (name : String) (st : St S Q) (reply : Outcome Job)
      → ((job : Job) → reply ≡ ok job → job.name ≡ name)
      → NewStarts name st.log
          (and_then reply
            (λ job. call (Event.update_suspend job.name (some false)) env.acknowledge)
            (record st { log = st.log ++ (Event.get_job name ∷ []) })).1.log
  started name st (ok job) same = (
    Event.get_job name ∷ Event.update_suspend job.name (some false) ∷ [],
    append_assoc st.log (Event.get_job name ∷ []) _,
    (inl refl, (inr (ap (λ n. Event.update_suspend n (some false)) (same job refl)), tt)),
  )
  started name st (err e) same = (Event.get_job name ∷ [], refl, (inl refl, tt))
  started name st panic same = (Event.get_job name ∷ [], refl, (inl refl, tt))

  check_job-new :
      AreNamed env
      → (job : Job) (st : St S Q) → NewStarts job.name st.log (check_job env job st).1.log
  unfolding check_job start_suspended_job
  check_job-new named job st =
      let annotation = text_or_empty (lookup job_start_date_annotation job.annotations) in
      elim (Bool-cases (annotation == "")) [
        | inl e ↦ rw (e, check_job) (no_calls job.name st.log)
        | inr e ↦
            elim (Bool-cases (ltb (parsed_date (env.parse_date annotation)) (env.now st.log))) [
              | inl b ↦
                  rw (e, b, check_job)
                    (started job.name st (env.job_named job.name st.log) (named job.name st.log))
              | inr b ↦ rw (e, b, check_job) (no_calls job.name st.log)
            ]
      ]

  check_job-Calls :
      AreNamed env → (job : Job) → Calls (IsStart job.name) (check_job {S = S} env job)
  check_job-Calls named job = record { calls = check_job-new named job }

  get_suspended_jobs-log :
      (st : St S Q) (jobs : List Job)
      → env.jobs st.log ≡ ok jobs
      → (get_suspended_jobs env st).1.log ≡ st.log ++ (Event.list_jobs ∷ [])
  unfolding get_suspended_jobs
  get_suspended_jobs-log st jobs e = ground arith

  -- A round of CheckStartJobs on a list of jobs that have all a value for `suspend` makes, after the
  -- listing, no calls but those that read the last job of the list and take that job out of its
  -- suspension, whichever jobs are suspended; a job that is read must have the name asked for.
  pub check_start_jobs-last :
      AreNamed env
      → (st : St S Q) (xs : List Job) (last : Job) → env.jobs st.log ≡ ok (xs ++ (last ∷ []))
      → All HasSuspend xs
      → HasSuspend last
      → (new : Log Q) × ((check_start_jobs env st).1.log
          ≡ (st.log ++ (Event.list_jobs ∷ [])) ++ new)
        × All (IsStart last.name) new
  unfolding check_start_jobs
  check_start_jobs-last named st xs last e h l =
      let n = tally is_suspended (xs ++ (last ∷ [])) in
      let jobs = replicate n last in
      let (new, same, fine) =
        (for_each-Calls (IsStart last.name) (λ job. job ≡ last) jobs (check_job env)
            (replicate-All (λ job. job ≡ last) n last refl)
            (λ job same.
              subst (λ j. Calls {S = S} (IsStart j.name) (check_job env job)) same
                (check_job-Calls named job))).calls
          (get_suspended_jobs env st).1 in
      rw (get_suspended_jobs-last env st xs last e h l, and_then)
        (new, same ∙ ap (λ t. t ++ new) (get_suspended_jobs-log st (xs ++ (last ∷ [])) e), fine)
