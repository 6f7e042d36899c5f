-- ===== src/Infrastructure/Creation.antt =====
-- How many jobs a request creates.
use target_exporter.Prelude.{
  ℕ, suc, ◌+◌, ◌≤◌, ◌≡◌, refl, Option, none, some, List, [], ◌∷◌, length, arith,
}
use target_exporter.Float.{Float64}
use target_exporter.Outcome.{Outcome, ok, err, panic, Action}
use target_exporter.World.{Quantity, Env, St}
use target_exporter.Scheduling.Orchestrator.{Settings}
use target_exporter.Scheduling.Orchestrator.Workload.{creations, add_workload-Creates}
use target_exporter.Infrastructure.{
  Response, JobScenarioSpawnRequest, server_error, answered, spawn_scenario, post_job_scenario,
}

abbrev pub job_count : {A : Type 0} → Outcome (List A) → ℕ
job_count (ok jobs) = length jobs
job_count (err e) = 0
job_count panic = 0

module _ {F S Q : Type 0} where
  -- Just `n` more creations if no response is written, and else at most so many.
  abbrev pub IsScenario : ℕ → ℕ → Outcome (Option (Response F)) × St S Q → Type 0
  IsScenario before n (ok none, st') = creations st'.log ≡ before + n
  IsScenario before n (ok (some r), st') = creations st'.log ≤ before + n
  IsScenario before n (err e, st') = creations st'.log ≤ before + n
  IsScenario before n (panic, st') = creations st'.log ≤ before + n

  IsScenario-suc :
      (before middle n : ℕ) (out : Outcome (Option (Response F)) × St S Q)
      → middle ≡ before + 1
      → IsScenario middle n out
      → IsScenario before (suc n) out
  IsScenario-suc before middle n (ok none, st') e h = omega (arith, e, h)
  IsScenario-suc before middle n (ok (some r), st') e h = omega (arith, e, h)
  IsScenario-suc before middle n (err t, st') e h = omega (arith, e, h)
  IsScenario-suc before middle n (panic, st') e h = omega (arith, e, h)

  answered-IsScenario :
      (o : Outcome (Unit {0})) (k : Action (St S Q) (Option (Response F))) (before n : ℕ)
      (st' : St S Q)
      → creations st'.log ≤ before + 1
      → (o ≡ ok tt → creations st'.log ≡ before + 1)
      → IsScenario (creations st'.log) n (k st')
      → IsScenario before (suc n) (answered o server_error (λ _. k) st')
  answered-IsScenario (ok tt) k before n st' h e c =
      IsScenario-suc before (creations st'.log) n (k st') (e refl) c
  answered-IsScenario (err t) k before n st' h e c = omega (arith, h)
  answered-IsScenario panic k before n st' h e c = omega (arith, h)

module _ {F Q S : Type 0} ⦃f : Float64 F⦄ ⦃q : Quantity Q⦄ (env : Env F Q)
    (settings : Settings) where
  spawn_scenario-IsScenario :
      (jobs : List (JobScenarioSpawnRequest F)) (st : St S Q)
      → IsScenario (creations st.log) (length jobs) (spawn_scenario env settings jobs st)
  unfolding spawn_scenario
  spawn_scenario-IsScenario [] st = omega arith
  spawn_scenario-IsScenario (job ∷ rest) st =
      let (bound, exact, same) = add_workload-Creates env settings _ st in
      answered-IsScenario _ (spawn_scenario env settings rest) (creations st.log) (length rest) _
        bound (exact tt) (spawn_scenario-IsScenario rest _)

  -- A POST of a job scenario creates at most one job for each entry, and exactly one for each entry if
  -- it writes no response, which is how it ends without an error. A request that does not parse
  -- creates none.
  pub post_job_scenario-creations :
      (request : Outcome (List (JobScenarioSpawnRequest F))) (st : St S Q)
      → IsScenario
          (creations st.log)
          (job_count request)
          (post_job_scenario env settings request st)
  unfolding post_job_scenario
  post_job_scenario-creations (ok jobs) st = spawn_scenario-IsScenario jobs st
  post_job_scenario-creations (err e) st = omega arith
  post_job_scenario-creations panic st = omega arith
