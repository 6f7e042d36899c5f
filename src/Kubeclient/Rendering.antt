-- ===== src/Kubeclient/Rendering.antt =====
-- What RenderK8sJob puts into the Job, and what GetMinCpu reads back.
use target_exporter.Prelude.{
  ℕ, ◌≡◌, refl, ◌∙◌, ◌<◌, ◌≤◌, Bool, true, false, String, Option, none, some, List, ◌∷◌, Dict,
  lookup, insert, lookup-insert, arith, ltb, lt→ltb, eq_iff, if◌then◌else◌,
}
use target_exporter.Prelude.Int.{div_ℤ}
use target_exporter.Outcome.{Outcome, ok, err, panic, and_then}
use target_exporter.World.{Quantity, Time, Pod, Container, JobManifest, Env, St}
use target_exporter.Kubeclient.Builder.{
  StressJob, put_or_make, render_env, render_container, render_containers, render_selector,
  render_at, render_k8s_job, get_min_cpu, job_min_cpu_limit_annotation, job_start_date_annotation,
}

-- The parts of the decoded prototype that the rendering writes to.
pub record HasParts {Q : Type 0} (m : JobManifest Q) : Type 0 where
  pub labels : Dict String
  pub container : Container Q
  pub others : List (Container Q)
  pub limits : Dict Q
  pub requests : Dict Q
  pub first : String × String
  pub second : String × String
  pub more : List (String × String)
  pub has_labels : m.template_labels ≡ some labels
  pub has_containers : m.containers ≡ container ∷ others
  pub has_limits : container.limits ≡ some limits
  pub has_requests : container.requests ≡ some requests
  pub has_env : container.env ≡ first ∷ second ∷ more

-- The value under a key of a map that may be nil.
abbrev pub entry : String → Option (Dict String) → Option String
entry k none = none
entry k (some m) = lookup k m

entry-put_or_make : (k v : String) (m : Option (Dict String)) → entry k (put_or_make k v m) ≡ some v
entry-put_or_make k v none = ground (arith, eq_iff k k)
entry-put_or_make k v (some m) = ground (arith, eq_iff k k, lookup-insert k k v m)

le→ltb : (a b : ℕ) → b ≤ a → ltb a b ≡ false
le→ltb a b h = ground arith

module _ {F Q : Type 0} ⦃q : Quantity Q⦄ (env : Env F Q) (job : StressJob F Q) where
  -- The first container: the CPU limit is the job's and the request a quarter of it, and the
  -- variables of the stress program have its number of workers and its length.
  pub record IsRendered (m' : JobManifest Q) : Type 0 where
    pub container : Container Q
    pub limits : Dict Q
    pub requests : Dict Q
    pub labels : Dict String
    pub more : List (String × String)
    pub others : List (Container Q)
    pub named : m'.name ≡ job.name
    pub has_containers : m'.containers ≡ container ∷ others
    pub has_limits : container.limits ≡ some limits
    pub cpu_limit : lookup "cpu" limits ≡ some job.cpu_limit
    pub has_requests : container.requests ≡ some requests
    pub cpu_request :
        lookup "cpu" requests ≡ some (q.new_milli (div_ℤ (q.milli_value job.cpu_limit) 4))
    pub variables :
        container.env
        ≡ ("MAX_CPU_CORES", env.format_int job.cpu_count)
          ∷ ("STRESS_SYSTEM_FOR", env.format_minutes job.length)
          ∷ more
    pub has_labels : m'.template_labels ≡ some labels
    pub app_label : lookup "app" labels ≡ some job.name
    pub deadline : m'.active_deadline_seconds ≡ some (div_ℤ job.length 1_000_000_000)

  module _ (now : Time) (m : JobManifest Q) (parts : HasParts m) where
    open parts use {labels, container, others, limits, requests, more}

    abbrev filled : Container Q
    filled = record {
      limits = some (insert "cpu" job.cpu_limit limits);
      requests = some (insert "cpu" (q.new_milli (div_ℤ (q.milli_value job.cpu_limit) 4)) requests);
      env =
          ("MAX_CPU_CORES", env.format_int job.cpu_count)
          ∷ ("STRESS_SYSTEM_FOR", env.format_minutes job.length)
          ∷ more;
    }

    abbrev is_later : Bool
    is_later = ltb now job.start_date

    abbrev expected : JobManifest Q
    expected = record {
      name = job.name;
      annotations =
          if is_later
          then put_or_make job_start_date_annotation (env.format_date job.start_date) m.annotations
          else m.annotations;
      suspend = if is_later then some true else m.suspend;
      active_deadline_seconds = some (div_ℤ job.length 1_000_000_000);
      template_labels = some (insert "app" job.name labels);
      template_annotations =
          put_or_make job_min_cpu_limit_annotation (env.format_float job.min_cpu_limit)
            m.template_annotations;
      node_selector = render_selector env job m.node_selector;
      containers = filled ∷ others;
    }

    render_container_lem : render_container env job container ≡ ok filled
    unfolding render_container render_env
    render_container_lem = ground (arith, parts.has_limits, parts.has_requests, parts.has_env)

    render_at_lem : render_at env job now m ≡ ok expected
    unfolding render_at render_containers
    render_at_lem = ground (arith, parts.has_labels, parts.has_containers, render_container_lem)

    expected-IsRendered : IsRendered expected
    expected-IsRendered = record {
      container = filled;
      limits = insert "cpu" job.cpu_limit limits;
      requests = insert "cpu" (q.new_milli (div_ℤ (q.milli_value job.cpu_limit) 4)) requests;
      labels = insert "app" job.name labels;
      more = more;
      others = others;
      named = refl;
      has_containers = refl;
      has_limits = refl;
      cpu_limit = lookup-insert "cpu" "cpu" job.cpu_limit limits;
      has_requests = refl;
      cpu_request = lookup-insert "cpu" "cpu" _ requests;
      variables = refl;
      has_labels = refl;
      app_label = lookup-insert "app" "app" job.name labels;
      deadline = refl;
    }

    -- The Job is suspended and carries its start date just if the start lies in the future.
    abbrev pub IsTimed : JobManifest Q → Type 0
    IsTimed m' =
        (now < job.start_date
          → (m'.suspend ≡ some true)
            × (entry job_start_date_annotation m'.annotations
                ≡ some (env.format_date job.start_date)))
        × (job.start_date ≤ now → (m'.suspend ≡ m.suspend) × (m'.annotations ≡ m.annotations))

    expected-IsTimed : IsTimed expected
    expected-IsTimed = (
      (λ h. rw (lt→ltb now job.start_date h) (refl, entry-put_or_make _ _ m.annotations)),
      (λ h. rw (le→ltb now job.start_date h) (refl, refl)),
    )

  render_k8s_job_lem :
      {S : Type 0} (st : St S Q) (m : JobManifest Q)
      → env.decoded_prototype ≡ ok m
      → (render_k8s_job env job st).0 ≡ render_at env job (env.now st.log) m
  unfolding render_k8s_job
  render_k8s_job_lem st m e = ground arith

  -- RenderK8sJob, on a prototype that has what it writes to, returns a Job with the name, the CPU
  -- limit, a quarter of it as the request, the variables, the `app` label and the deadline of the
  -- stress job. The Job is suspended and annotated with its start date if that lies in the future;
  -- if not, the prototype's `suspend` and annotations stay.
  pub render_k8s_job-IsRendered :
      {S : Type 0} (st : St S Q) (m : JobManifest Q) (parts : HasParts m)
      → env.decoded_prototype ≡ ok m
      → (m' : JobManifest Q) × ((render_k8s_job env job st).0 ≡ ok m')
        × IsRendered m'
        × IsTimed (env.now st.log) m parts m'
  render_k8s_job-IsRendered st m parts e =
      let now = env.now st.log in
      (
        expected now m parts,
        render_k8s_job_lem st m e ∙ render_at_lem now m parts,
        expected-IsRendered now m parts,
        expected-IsTimed now m parts,
      )

  render_at-min_cpu :
      (now : Time) (m m' : JobManifest Q)
      → render_at env job now m ≡ ok m'
      → entry job_min_cpu_limit_annotation m'.template_annotations
        ≡ some (env.format_float job.min_cpu_limit)
  unfolding render_at
  render_at-min_cpu now m m' e = ground (
    arith,
    entry-put_or_make job_min_cpu_limit_annotation (env.format_float job.min_cpu_limit)
        m.template_annotations,
  )

  decoded-min_cpu :
      {S : Type 0} (st : St S Q) (m' : JobManifest Q) (o : Outcome (JobManifest Q))
      → (and_then o (λ m s. (render_at env job (env.now s.log) m, s)) st).0 ≡ ok m'
      → entry job_min_cpu_limit_annotation m'.template_annotations
        ≡ some (env.format_float job.min_cpu_limit)
  decoded-min_cpu st m' (ok m) e = render_at-min_cpu (env.now st.log) m m' e
  decoded-min_cpu st m' (err t) e = cc
  decoded-min_cpu st m' panic e = cc

  -- GetMinCpu reads from a pod that has the annotations of a rendered template the number that the
  -- minimum CPU limit of the stress job prints and parses to.
  pub get_min_cpu-render_k8s_job :
      {S : Type 0} (st : St S Q) (m' : JobManifest Q) (pod : Pod Q) (x : F)
      → (render_k8s_job env job st).0 ≡ ok m'
      → m'.template_annotations ≡ some pod.annotations
      → env.parse_float (env.format_float job.min_cpu_limit) ≡ ok x
      → get_min_cpu env pod ≡ ok x
  unfolding render_k8s_job get_min_cpu
  get_min_cpu-render_k8s_job st m' pod x e a p =
      ground (arith, decoded-min_cpu st m' env.decoded_prototype e)
