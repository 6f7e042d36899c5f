-- ===== src/Kubeclient.antt =====
-- pkg/kubeclient/kubeclient.go: the calls of the Kubernetes API, in the namespace `default`, and the
-- conversions between percentages and CPU quantities.
pub mod Builder
pub mod Clearing
pub mod Pending
pub mod Sorting
pub mod Suspended
pub mod Rendering
pub mod Durations
use target_exporter.Prelude.{
  ℕ, suc, ◌+◌, Bool, true, false, not, String, Option, none, some, List, [], ◌∷◌, ◌&&◌, ◌||◌, Dict,
  lookup, keep, replicate, eqb, ltb, leb, ◌==◌, if◌then◌else◌,
}
use target_exporter.Prelude.Int.{ℤ, pos, ◌*ℤ◌}
use target_exporter.Float.{Float64, num}
use target_exporter.Outcome.{Outcome, ok, err, panic, Action, ◌>>=◌, ◌>>◌, pure, lift, for_each}
use target_exporter.World.{
  Quantity, Time, Phase, Pod, Job, OwnerReference, Event, Env, St, call, observe,
}
use target_exporter.Kubeclient.Builder.{StressJob, render_k8s_job}

abbrev pub is_succeeded : Phase → Bool
is_succeeded Phase.succeeded = true
is_succeeded _ = false

module _ {F Q S : Type 0} (env : Env F Q) where
  unfoldable pub patch_cpu_limit : Q → String → Action (St S Q) (Unit {0})
  patch_cpu_limit limit pod_name = call (Event.patch_cpu_limit pod_name limit) env.acknowledge

  -- The loop that copies the items is the identity.
  unfoldable pub get_pods_in_namespace : Action (St S Q) (List (Pod Q))
  get_pods_in_namespace = call Event.list_pods env.pods

  unfoldable pub get_pods_in_namespace_by_node : String → Action (St S Q) (List (Pod Q))
  unfolding get_pods_in_namespace
  get_pods_in_namespace_by_node node = do
    pods ← get_pods_in_namespace
    pure (keep (λ pod. pod.node_name == node) pods)

  unfoldable pub is_node_name_valid : String → Action (St S Q) Bool
  is_node_name_valid node st =
      let (answer, st') = call (Event.get_node node) env.acknowledge st in
      elim answer [ ok _ ↦ (ok true, st') | err e ↦ (ok false, st') | panic ↦ (panic, st') ]

  unfoldable pub get_pod_node_name : String → Action (St S Q) String
  get_pod_node_name name = do
    pod ← call (Event.get_pod name) (env.pod_named name)
    pure pod.node_name

  unfoldable pub get_pod_from_name : String → Action (St S Q) (Pod Q)
  get_pod_from_name name = call (Event.get_pod name) (env.pod_named name)

  unfoldable pub start_suspended_job : String → Action (St S Q) (Unit {0})
  start_suspended_job name = do
    job ← call (Event.get_job name) (env.job_named name)
    call (Event.update_suspend job.name (some false)) env.acknowledge

-- ClearCompletedWorkloads
abbrev pub is_job_completed : Job → Bool
is_job_completed job = eqb job.active 0 && ltb 0 job.succeeded

module _ {F Q S : Type 0} (env : Env F Q) where
  unfoldable pub delete_job : String → Action (St S Q) (Unit {0})
  delete_job name = call (Event.delete_job name) env.acknowledge

  unfoldable pub delete_pod : String → Action (St S Q) (Unit {0})
  delete_pod name = call (Event.delete_pod name) env.acknowledge

  unfoldable pub clear_jobs : List Job → Action (St S Q) (Unit {0})
  clear_jobs [] st = (ok tt, st)
  clear_jobs (job ∷ rest) st = elim (is_job_completed job) [
    | true ↦ (delete_job job.name >> clear_jobs rest) st
    | false ↦ clear_jobs rest st
  ]

  -- The second loop, with the named result `done`.
  unfoldable pub clear_pods : Bool → List (Pod Q) → Action (St S Q) Bool
  clear_pods done [] st = (ok done, st)
  clear_pods done (pod ∷ rest) st = elim (is_succeeded pod.phase) [
    | true ↦ (delete_pod pod.name >> clear_pods true rest) st
    | false ↦ clear_pods done rest st
  ]

  unfoldable pub clear_completed_workloads : Action (St S Q) Bool
  clear_completed_workloads = do
    jobs ← call Event.list_jobs env.jobs
    clear_jobs jobs
    pods ← call Event.list_pods env.pods
    clear_pods false pods

-- DeletePendingWorkload
unfoldable pub is_owner_present : List OwnerReference → String → String → Bool
is_owner_present [] name kind = false
is_owner_present (ref ∷ rest) name kind =
    ((ref.owner_name == name) && (ref.owner_kind == kind)) || is_owner_present rest name kind

-- `sort.Slice` by creation time. Go leaves the order of equal times open; here they keep theirs.
unfoldable pub insert_by_creation : Job → List Job → List Job
insert_by_creation job [] = job ∷ []
insert_by_creation job (j ∷ rest) =
    if ltb j.created job.created then j ∷ insert_by_creation job rest else job ∷ j ∷ rest

unfoldable pub sort_by_creation : List Job → List Job
sort_by_creation [] = []
sort_by_creation (job ∷ rest) = insert_by_creation job (sort_by_creation rest)

module _ {Q : Type 0} where
  -- The inner loop: does some pending pod belong to the job?
  unfoldable pub owns_any : Job → List (Pod Q) → Bool
  owns_any job [] = false
  owns_any job (pod ∷ rest) = is_owner_present pod.owners job.name "Job" || owns_any job rest

module _ {F Q S : Type 0} (env : Env F Q) where
  unfoldable pub delete_job_foreground : String → Action (St S Q) (Unit {0})
  delete_job_foreground name = call (Event.delete_job_foreground name) env.acknowledge

  unfoldable pub delete_first_pending : List (Pod Q) → List Job → Action (St S Q) Bool
  delete_first_pending pods [] st = (ok false, st)
  delete_first_pending pods (job ∷ rest) st =
      if owns_any job pods
      then (delete_job_foreground job.name >> pure true) st
      else delete_first_pending pods rest st

  unfoldable pub pick_pending : List Job → Action (St S Q) Bool
  pick_pending [] = pure false
  pick_pending (job ∷ rest) = do
    pods ← call Event.list_pending_pods env.pending_pods
    delete_first_pending pods (sort_by_creation (job ∷ rest))

  unfoldable pub delete_pending_workload : Action (St S Q) Bool
  delete_pending_workload = do
    jobs ← call Event.list_jobs env.jobs
    pick_pending (keep (λ job. eqb job.succeeded 0) jobs)

-- GetSuspendedJobs. `job` is one variable for the whole range (go.mod: go 1.20), so every `&job` that
-- is collected points to it, and reads what the last round has left there: the result is so many
-- copies of the last item. A job with no `suspend` is a nil pointer.
unfoldable pub pointers_to : Option Job → ℕ → List Job → Outcome (List Job)
pointers_to none n [] = ok []
pointers_to (some job) n [] = ok (replicate n job)
pointers_to cell n (job ∷ rest) = elim job.suspend [
  | none ↦ panic
  | some suspended ↦ pointers_to (some job) (if suspended then suc n else n) rest
]

module _ {F Q S : Type 0} (env : Env F Q) where
  unfoldable pub get_suspended_jobs : Action (St S Q) (List Job)
  get_suspended_jobs = do jobs ← call Event.list_jobs env.jobs; lift (pointers_to none 0 jobs)

-- SpawnNewWorkload
module _ {F Q S : Type 0} ⦃q : Quantity Q⦄ (env : Env F Q) where
  unfoldable pub spawn_new_workload : StressJob F Q → Action (St S Q) (Unit {0})
  spawn_new_workload job = do
    manifest ← render_k8s_job env job
    call (Event.create_job manifest) env.acknowledge

-- The value of a missing key is 0.
abbrev pub int_or_zero : Option ℤ → ℤ
int_or_zero none = pos 0
int_or_zero (some n) = n

-- The first node in the order of the range, or the empty text.
abbrev pub first_key : Dict ℤ → String
first_key [] = ""
first_key ((k, n) ∷ m) = k

module _ {F Q : Type 0} ⦃f : Float64 F⦄ ⦃q : Quantity Q⦄ where
  -- Its error is always nil.
  unfoldable pub percentage_to_resource_quantity : Dict ℤ → F → String → Q
  percentage_to_resource_quantity cpu_counts percentage node =
      let cpu_count = int_or_zero (lookup node cpu_counts) in
      let share = f.mul (f.div percentage (num 100)) (f.of_int cpu_count) in
      q.new_milli (f.to_int (f.mul share (num 1000)))

  -- Its error is always nil.
  unfoldable pub resource_quantity_to_percentage : Dict ℤ → Q → String → F
  resource_quantity_to_percentage cpu_counts quantity node =
      let node' = if node == "" then first_key cpu_counts else node in
      let cpu_count = int_or_zero (lookup node' cpu_counts) in
      let percentage =
        f.div (f.div (f.of_int (q.milli_value quantity)) (num 1000)) (f.of_int cpu_count) in
      f.mul percentage (num 100)
