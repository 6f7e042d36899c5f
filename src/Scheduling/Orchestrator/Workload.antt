-- ===== src/Scheduling/Orchestrator/Workload.antt =====
-- How many jobs AddWorkload creates.
use Prim.Native.String.{◌++◌ as append_text}
use target_exporter.Prelude.{
  ℕ, ◌+◌, ◌≤◌, ◌≡◌, refl, ap, ◌∙◌, Bool, true, false, String, List, [], ◌∷◌, ◌++◌, tally, arith,
  if◌then◌else◌, Dict,
}
use target_exporter.Float.{Float64}
use target_exporter.Outcome.{Outcome, ok, err, panic, Action, ◌>>=◌, and_then, lift}
use target_exporter.World.{Quantity, Event, Log, Env, St, call}
use target_exporter.Pyzhm.{predict}
use target_exporter.Promclient.{
  get_current_energy_consumption, get_cpu_counts, get_node_cpu_diff, get_current_cpu_diff,
}
use target_exporter.Kubeclient.{spawn_new_workload}
use target_exporter.Kubeclient.Builder.{StressJob, build, render_k8s_job}
use target_exporter.Scheduling.Orchestrator.{
  Settings, WorkloadSpawnOptions, WorkloadSpawnOption, energy_consumption, choose_node, add_options,
  add_workload, apply_options, default_options,
}

abbrev pub is_creation : {Q : Type 0} → Event Q → Bool
is_creation (Event.create_job m) = true
is_creation _ = false

-- The number of calls that create a job.
abbrev pub creations : {Q : Type 0} → Log Q → ℕ
creations log = tally is_creation log

creations-snoc :
    {Q : Type 0} (log : Log Q) (e : Event Q)
    → creations (log ++ (e ∷ [])) ≡ creations log + (if is_creation e then 1 else 0)
creations-snoc [] e = omega arith
creations-snoc (x ∷ log) e = omega (arith, creations-snoc log e)

module _ {S Q : Type 0} where
  -- Without an error there are `n` more creations, and else at most so many; the component's own
  -- fields stay.
  abbrev pub Creates : {A : Type 0} → ℕ → Action (St S Q) A → Type 0
  Creates {A} n m =
      (st : St S Q)
      → (creations (m st).1.log ≤ creations st.log + n)
        × ((a : A) → (m st).0 ≡ ok a → creations (m st).1.log ≡ creations st.log + n)
        × ((m st).1.own ≡ st.own)

  -- One more creation than before, or at most one more after an error or a panic.
  abbrev pub CreatesOne : ℕ → Outcome (Unit {0}) × St S Q → Type 0
  CreatesOne before (ok tt, st') = creations st'.log ≡ before + 1
  CreatesOne before (err e, st') = creations st'.log ≤ before + 1
  CreatesOne before (panic, st') = creations st'.log ≤ before + 1

  to_CreatesOne :
      (o : Outcome (Unit {0})) (st' : St S Q) (before : ℕ)
      → creations st'.log ≤ before + 1
      → (o ≡ ok tt → creations st'.log ≡ before + 1)
      → CreatesOne before (o, st')
  to_CreatesOne (ok tt) st' before h e = e refl
  to_CreatesOne (err t) st' before h e = h
  to_CreatesOne panic st' before h e = h

module _ {S Q A B : Type 0} where
  and_then-Creates :
      (n k : ℕ) (o : Outcome A) (g : A → Action (St S Q) B) (before : ℕ) (st : St S Q)
      → (creations st.log ≤ before + n)
      → ((a : A) → o ≡ ok a → creations st.log ≡ before + n)
      → ((a : A) → Creates k (g a))
      → (creations (and_then o g st).1.log ≤ before + (n + k))
        × ((b : B)
            → (and_then o g st).0 ≡ ok b
            → creations (and_then o g st).1.log ≡ before + (n + k))
        × ((and_then o g st).1.own ≡ st.own)
  and_then-Creates n k (ok a) g before st le eq h =
      let (bound, exact, same) = h a st in
      (omega (arith, eq a refl), (λ b e. omega (arith, eq a refl, exact b e)), same)
  and_then-Creates n k (err t) g before st le eq h = (omega arith, (λ b e. cc), refl)
  and_then-Creates n k panic g before st le eq h = (omega arith, (λ b e. cc), refl)

  pub >>=-Creates :
      (n k : ℕ) (m : Action (St S Q) A) (g : A → Action (St S Q) B)
      → Creates n m
      → ((a : A) → Creates k (g a))
      → Creates (n + k) (m >>= g)
  >>=-Creates n k m g hm hg st =
      let (bound, exact, same) = hm st in
      let (total, all, kept) =
        and_then-Creates n k (m st).0 g (creations st.log) (m st).1 bound exact hg in
      (total, all, kept ∙ same)

module _ {S Q A : Type 0} where
  call-Creates :
      (e : Event Q) (answer : Log Q → Outcome A)
      → Creates (if is_creation e then 1 else 0) (call {S = S} e answer)
  call-Creates e answer st =
      (omega (arith, creations-snoc st.log e), (λ a h. creations-snoc st.log e), refl)

  stay-Creates : (m : Action (St S Q) A) → ((st : St S Q) → (m st).1 ≡ st) → Creates 0 m
  stay-Creates m same st =
      (rw (same st) (omega arith), (λ a h. rw (same st) (omega arith)), ap (λ t. t.own) (same st))

  lift-Creates : (o : Outcome A) → Creates 0 (lift {S = St S Q} o)
  lift-Creates o = stay-Creates (lift o) (λ st. refl)

  if-Creates :
      (b : Bool) (m k : Action (St S Q) A)
      → Creates 0 m
      → Creates 0 k
      → Creates 0 (if b then m else k)
  if-Creates true m k hm hk = hm
  if-Creates false m k hm hk = hk

module _ {F Q S : Type 0} ⦃f : Float64 F⦄ ⦃q : Quantity Q⦄ (env : Env F Q) where
  pub get_cpu_counts-Creates : Creates 0 (get_cpu_counts {S = S} env)
  unfolding get_cpu_counts
  get_cpu_counts-Creates =
      >>=-Creates 0 0 _ _ (call-Creates _ env.samples) (λ a. stay-Creates _ (λ st. refl))

  pub get_current_cpu_diff-Creates : Creates 0 (get_current_cpu_diff {S = S} env)
  unfolding get_current_cpu_diff
  get_current_cpu_diff-Creates =
      >>=-Creates 0 0 _ _ (call-Creates _ env.samples) (λ a. stay-Creates _ (λ st. refl))

  get_node_cpu_diff-Creates : (node : String) → Creates 0 (get_node_cpu_diff {S = S} env node)
  unfolding get_node_cpu_diff
  get_node_cpu_diff-Creates node =
      >>=-Creates 0 0 _ _ (call-Creates _ env.samples) (λ a. stay-Creates _ (λ st. refl))

  get_current_energy_consumption-Creates : Creates 0 (get_current_energy_consumption {S = S} env)
  unfolding get_current_energy_consumption
  get_current_energy_consumption-Creates =
      >>=-Creates 0 0 _ _ (call-Creates _ env.samples) (λ a. stay-Creates _ (λ st. refl))

  energy_consumption-Creates :
      (scenario : Dict F) → Creates 0 (energy_consumption {S = S} env scenario)
  unfolding energy_consumption
  energy_consumption-Creates [] = get_current_energy_consumption-Creates
  energy_consumption-Creates (e ∷ rest) = stay-Creates _ (λ st. refl)

  predict-Creates :
      (address : String) (scenario requirements : Dict F)
      → Creates 0 (predict {S = S} env address scenario requirements)
  unfolding predict
  predict-Creates address scenario requirements =
      let at = Event.post (append_text address "/predict") in
      >>=-Creates 0 0 (lift (env.marshal_scenario scenario requirements)) _
        (lift-Creates (env.marshal_scenario scenario requirements))
        λ payload.
          >>=-Creates 0 0 (call (at payload) env.post_reply) _
            (call-Creates (at payload) env.post_reply)
            λ response.
              >>=-Creates 0 0 (lift response) (λ body. lift (env.unmarshal_predictions body))
                (lift-Creates response) (λ body. lift-Creates (env.unmarshal_predictions body))

  choose_node-Creates :
      (settings : Settings) (o : WorkloadSpawnOptions F) (cores : Q) (job : StressJob F Q)
      → Creates 0 (choose_node {S = S} env settings o cores job)
  unfolding choose_node
  choose_node-Creates settings o cores job =
      >>=-Creates 0 0 _ _ (energy_consumption-Creates o.working_scenario) λ scenario.
        >>=-Creates 0 0 _ _ (predict-Creates settings.pyzhm_address _ _) λ assignments.
          >>=-Creates 0 0 _ _ (get_node_cpu_diff-Creates _) λ diff. stay-Creates _ (λ st. refl)

  build-Creates : (job : StressJob F Q) → Creates 0 (build {S = S} env job)
  unfolding build
  build-Creates job = stay-Creates _ (λ st. refl)

  render_k8s_job-stays :
      (job : StressJob F Q) (st : St S Q) → (render_k8s_job {S = S} env job st).1 ≡ st
  unfolding render_k8s_job
  render_k8s_job-stays job st = ground arith

  spawn_new_workload-Creates :
      (job : StressJob F Q) → Creates 1 (spawn_new_workload {S = S} env job)
  unfolding spawn_new_workload
  spawn_new_workload-Creates job =
      >>=-Creates 0 1 _ _ (stay-Creates _ (render_k8s_job-stays job))
        λ m. call-Creates (Event.create_job m) env.acknowledge

  add_options-Creates :
      (settings : Settings) (o : WorkloadSpawnOptions F)
      → Creates 1 (add_options {S = S} env settings o)
  unfolding add_options
  add_options-Creates settings o = >>=-Creates 0 1 _ _ get_cpu_counts-Creates λ counts.
      >>=-Creates 0 1 _ _
        (if-Creates settings.tawa_enabled _ _ (choose_node-Creates settings o _ _)
          (stay-Creates _ (λ st. refl)))
        λ job. >>=-Creates 0 1 _ _ (build-Creates job) λ built. spawn_new_workload-Creates built

  pub add_workload-Creates :
      (settings : Settings) (options : List (WorkloadSpawnOption F))
      → Creates 1 (add_workload {S = S} env settings options)
  unfolding add_workload
  add_workload-Creates settings options =
      add_options-Creates settings (apply_options options default_options)

  -- One call of AddWorkload creates exactly one job when it returns no error, and at most one when it
  -- returns an error or panics, whatever the options, the strategies in force and the answers of the
  -- services.
  pub add_workload-creations :
      (settings : Settings) (options : List (WorkloadSpawnOption F)) (st : St S Q)
      → CreatesOne (creations st.log) (add_workload env settings options st)
  add_workload-creations settings options st =
      let (bound, exact, same) = add_workload-Creates settings options st in
      to_CreatesOne (add_workload env settings options st).0 _ (creations st.log) bound (exact tt)
