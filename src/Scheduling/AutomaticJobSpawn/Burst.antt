-- ===== src/Scheduling/AutomaticJobSpawn/Burst.antt =====
-- How many jobs a round adds, and when it adds none.
use target_exporter.Prelude.{
  ℕ, ◌+◌, ◌≤◌, ◌<◌, ◌≡◌, ◌⊎◌, inl, inr, refl, true, false, String, List, [], ◌∷◌, arith, Bool-cases,
  Option-cases,
}
use target_exporter.Float.{Float64}
use target_exporter.Outcome.{Outcome, ok, err, panic, and_then, ◌>>◌, modify}
use target_exporter.World.{Quantity, Time, Env, St, within}
use target_exporter.Promclient.{NodeCpuUsage, get_current_cpu_diff}
use target_exporter.Scheduling.Orchestrator.{Settings}
use target_exporter.Scheduling.Orchestrator.Workload.{
  creations, Creates, >>=-Creates, get_cpu_counts-Creates, get_current_cpu_diff-Creates,
  add_workload-Creates,
}
use target_exporter.Scheduling.AutomaticJobSpawn.{
  AutomaticJobSpawn, should_reset, should_spawn, last_usage, reset_at, count_up, spawn_job,
  visit_diffs, reconcile,
}

-- The burst is full, or the pause after it lasts.
abbrev pub IsPaused : Time → AutomaticJobSpawn → Type 0
IsPaused now t = (4 ≤ t.spawn_count) ⊎ (now ≤ t.reset_time)

reset_at-IsPaused :
    (now : Time) (t : AutomaticJobSpawn) → IsPaused now t → IsPaused now (reset_at now t)
unfolding reset_at should_reset
reset_at-IsPaused now t h = ground arith

reset_at-bound :
    (now : Time) (t : AutomaticJobSpawn) → t.spawn_count ≤ 4 → (reset_at now t).spawn_count ≤ 4
unfolding reset_at
reset_at-bound now t h = ground arith

module _ {F : Type 0} ⦃f : Float64 F⦄ where
  should_spawn_of_IsPaused :
      (now : Time) (x : F) (t : AutomaticJobSpawn)
      → IsPaused now t
      → should_spawn now x t.spawn_count t.reset_time ≡ false
  unfolding should_spawn
  should_spawn_of_IsPaused now x t h = ground arith

  should_spawn-lt : (now : Time) (x : F) (n : ℕ) (t : Time) → should_spawn now x n t ≡ true → n < 4
  unfolding should_spawn
  should_spawn-lt now x n t h = ground arith

module _ {F Q : Type 0} ⦃f : Float64 F⦄ ⦃q : Quantity Q⦄ (env : Env F Q) (settings : Settings) where
  spawn_job-Creates : (node : String) → Creates 1 (spawn_job {F = F} {Q = Q} env settings node)
  unfolding spawn_job
  spawn_job-Creates node =
      >>=-Creates 0 1 _ _ (get_cpu_counts-Creates env)
        (λ counts. add_workload-Creates env settings _)

  -- The counter stays within a burst, and at most one job was created.
  abbrev pub IsCounted :
      St AutomaticJobSpawn Q → Outcome (Unit {0}) × St AutomaticJobSpawn Q → Type 0
  IsCounted st out = (out.1.own.spawn_count ≤ 4) × (creations out.1.log ≤ creations st.log + 1)

  count_up-IsCounted :
      (o : Outcome (Unit {0})) (st st' : St AutomaticJobSpawn Q)
      → st'.own.spawn_count < 4
      → creations st'.log ≤ creations st.log + 1
      → IsCounted st (and_then o (λ _. within (modify count_up)) st')
  count_up-IsCounted (ok tt) st st' h c = (omega arith, c)
  count_up-IsCounted (err e) st st' h c = (omega arith, c)
  count_up-IsCounted panic st st' h c = (omega arith, c)

  spawn-IsCounted :
      (node : String) (st : St AutomaticJobSpawn Q)
      → st.own.spawn_count < 4
      → IsCounted st ((spawn_job env settings node >> within (modify count_up)) st)
  spawn-IsCounted node st h =
      let (bound, exact, same) = spawn_job-Creates node st in
      count_up-IsCounted (spawn_job env settings node st).0 st (spawn_job env settings node st).1
        (rw same h) bound

  visit_diffs-IsCounted :
      (diffs : List (NodeCpuUsage F)) (st : St AutomaticJobSpawn Q)
      → st.own.spawn_count ≤ 4
      → IsCounted st (visit_diffs env settings diffs st)
  unfolding visit_diffs
  visit_diffs-IsCounted [] st h = (h, omega arith)
  visit_diffs-IsCounted (v ∷ rest) st h =
      let now = env.now st.log in
      let st' : St AutomaticJobSpawn Q = record st { own = reset_at now st.own } in
      let bound = reset_at-bound now st.own h in
      elim (Option-cases (last_usage v.usages)) [
        | inl e ↦ rw (e, visit_diffs) (bound, omega arith)
        | inr (x, e) ↦
            elim (Bool-cases (should_spawn now x st'.own.spawn_count st'.own.reset_time)) [
              | inl b ↦
                  rw (e, b, visit_diffs)
                    (spawn-IsCounted v.node_name st'
                      (should_spawn-lt now x st'.own.spawn_count st'.own.reset_time b))
              | inr b ↦ rw (e, b, visit_diffs) (visit_diffs-IsCounted rest st' bound)
            ]
      ]

  visit_diffs-paused :
      (diffs : List (NodeCpuUsage F)) (st : St AutomaticJobSpawn Q)
      → IsPaused (env.now st.log) st.own
      → (visit_diffs env settings diffs st).1.log ≡ st.log
  unfolding visit_diffs
  visit_diffs-paused [] st h = refl
  visit_diffs-paused (v ∷ rest) st h =
      let now = env.now st.log in
      let st' : St AutomaticJobSpawn Q = record st { own = reset_at now st.own } in
      let paused = reset_at-IsPaused now st.own h in
      let off = λ (x : F). should_spawn_of_IsPaused now x st'.own paused in
      elim (Option-cases (last_usage v.usages)) [
        | inl e ↦ rw (e, visit_diffs) refl
        | inr (x, e) ↦ rw (e, off x, visit_diffs) (visit_diffs-paused rest st' paused)
      ]

  visit_answer-IsCounted :
      (answer : Outcome (List (NodeCpuUsage F))) (st st' : St AutomaticJobSpawn Q)
      → st'.own.spawn_count ≤ 4
      → creations st'.log ≤ creations st.log
      → IsCounted st (and_then answer (visit_diffs env settings) st')
  visit_answer-IsCounted (ok diffs) st st' h c =
      let (bound, created) = visit_diffs-IsCounted diffs st' h in (bound, omega arith)
  visit_answer-IsCounted (err e) st st' h c = (h, omega arith)
  visit_answer-IsCounted panic st st' h c = (h, omega arith)

  -- A round of the automatic job spawn creates at most one job and keeps the counter of the burst at
  -- most 4, also when it ends in an error or a panic.
  pub reconcile-IsCounted :
      (st : St AutomaticJobSpawn Q)
      → st.own.spawn_count ≤ 4
      → IsCounted st (reconcile env settings st)
  unfolding reconcile
  reconcile-IsCounted st h =
      let (bound, exact, same) = get_current_cpu_diff-Creates env st in
      visit_answer-IsCounted (get_current_cpu_diff env st).0 st (get_current_cpu_diff env st).1
        (rw same h) (omega (arith, bound))

  visit_answer-paused :
      (answer : Outcome (List (NodeCpuUsage F))) (st' : St AutomaticJobSpawn Q)
      → IsPaused (env.now st'.log) st'.own
      → (and_then answer (visit_diffs env settings) st').1.log ≡ st'.log
  visit_answer-paused (ok diffs) st' h = visit_diffs-paused diffs st' h
  visit_answer-paused (err e) st' h = refl
  visit_answer-paused panic st' h = refl

  -- A round that finds the burst full, or the time of the pause after it not over, makes no call but
  -- the query of the differences, so it creates no job.
  pub reconcile-paused :
      (st : St AutomaticJobSpawn Q)
      → IsPaused (env.now (get_current_cpu_diff env st).1.log) st.own
      → (reconcile env settings st).1.log ≡ (get_current_cpu_diff env st).1.log
  unfolding reconcile
  reconcile-paused st h =
      let (bound, exact, same) = get_current_cpu_diff-Creates env st in
      visit_answer-paused (get_current_cpu_diff env st).0 (get_current_cpu_diff env st).1
        (rw same h)
