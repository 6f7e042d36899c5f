-- ===== src/Kubeclient/Builder.antt =====
-- pkg/kubeclient/job.go: the builder of a stress job and the batch/v1 Job that it renders.
use Prim.Native.String.{◌++◌ as append_text}
use target_exporter.Prelude.{
  true, String, Option, none, some, List, [], ◌∷◌, Dict, insert, lookup, ltb, ◌==◌, if◌then◌else◌,
}
use target_exporter.Prelude.Int.{ℤ, pos, ◌*ℤ◌, div_ℤ, wrap_int64}
use target_exporter.Float.{Float64, num}
use target_exporter.Outcome.{Outcome, ok, err, panic, Action, ◌>>=◌, pure, lift, bind_outcome}
use target_exporter.World.{Quantity, Time, Pod, Container, JobManifest, Env, St, observe}

abbrev pub hardware_type_annotation : String
hardware_type_annotation = "ecoqube.eu/hardware-type"

abbrev pub job_start_date_annotation : String
job_start_date_annotation = "ecoqube.eu/start"

abbrev pub job_min_cpu_limit_annotation : String
job_min_cpu_limit_annotation = "ecoqube.eu/min-cpu-limit"

-- StressJob with its BaseJob; `length` is a time.Duration in nanoseconds.
pub record StressJob (F Q : Type 0) : Type 0 where
  pub name : String
  pub cpu_limit : Q
  pub cpu_count : ℤ
  pub workload_type : String
  pub node_selector : Option (Dict String)
  pub start_date : Time
  pub min_cpu_limit : F
  pub length : ℤ

-- MinutesToDuration: `int` has 64 bits, and the product wraps.
unfoldable pub minutes_to_duration : ℤ → ℤ
minutes_to_duration minutes = wrap_int64 (minutes *ℤ pos 60_000_000_000)

module _ {F Q : Type 0} ⦃f : Float64 F⦄ ⦃q : Quantity Q⦄ where
  -- `&StressJob{}`
  unfoldable pub new_stress_job : StressJob F Q
  new_stress_job = record {
    name = "";
    cpu_limit = q.new_milli (pos 0);
    cpu_count = pos 0;
    workload_type = "";
    node_selector = none;
    start_date = 0;
    min_cpu_limit = num 0;
    length = pos 0;
  }

module _ {F Q : Type 0} where
  abbrev pub with_name : String → StressJob F Q → StressJob F Q
  with_name x job = record job { name = x }

  abbrev pub with_cpu_limit : Q → StressJob F Q → StressJob F Q
  with_cpu_limit x job = record job { cpu_limit = x }

  abbrev pub with_cpu_count : ℤ → StressJob F Q → StressJob F Q
  with_cpu_count x job = record job { cpu_count = x }

  abbrev pub with_workload_type : String → StressJob F Q → StressJob F Q
  with_workload_type x job = record job { workload_type = x }

  abbrev pub with_length : ℤ → StressJob F Q → StressJob F Q
  with_length x job = record job { length = x }

  abbrev pub with_node_selector : String → StressJob F Q → StressJob F Q
  with_node_selector node job = record job {
    node_selector = some (("kubernetes.io/hostname", node) ∷ []);
  }

  abbrev pub with_start_date : Time → StressJob F Q → StressJob F Q
  with_start_date x job = record job { start_date = x }

  abbrev pub with_min_cpu_limit : F → StressJob F Q → StressJob F Q
  with_min_cpu_limit x job = record job { min_cpu_limit = x }

module _ {F Q S : Type 0} ⦃q : Quantity Q⦄ (env : Env F Q) where
  -- Build, with generateJobName.
  unfoldable pub build : StressJob F Q → Action (St S Q) (StressJob F Q)
  build job = do
    suffix ← observe env.fresh_suffix
    pure (
        if job.name == ""
        then with_name
            (append_text (q.to_string job.cpu_limit) (append_text "-cpu-stresstest-" suffix)) job
        else job)

module _ {V : Type 0} where
  -- `m[k] = v`, which panics on a nil map.
  abbrev pub put : String → V → Option (Dict V) → Outcome (Option (Dict V))
  put k v none = panic
  put k v (some m) = ok (some (insert k v m))

  -- `if m == nil { m = make(…) }; m[k] = v`
  abbrev pub put_or_make : String → V → Option (Dict V) → Option (Dict V)
  put_or_make k v none = some ((k, v) ∷ [])
  put_or_make k v (some m) = some (insert k v m)

-- The writes to the first container, which panic where an index is out of range.
module _ {F Q : Type 0} ⦃q : Quantity Q⦄ (env : Env F Q) (job : StressJob F Q) where
  unfoldable pub render_env : List (String × String) → Outcome (List (String × String))
  render_env (a ∷ b ∷ rest) = ok (
      ("MAX_CPU_CORES", env.format_int job.cpu_count)
      ∷ ("STRESS_SYSTEM_FOR", env.format_minutes job.length)
      ∷ rest)
  render_env _ = panic

  unfoldable pub render_container : Container Q → Outcome (Container Q)
  render_container c = bind_outcome (put "cpu" job.cpu_limit c.limits) λ limits.
      bind_outcome (put "cpu" (q.new_milli (div_ℤ (q.milli_value job.cpu_limit) 4)) c.requests)
        λ requests.
          bind_outcome (render_env c.env)
            λ variables. ok (record { limits = limits; requests = requests; env = variables })

  unfoldable pub render_containers : List (Container Q) → Outcome (List (Container Q))
  render_containers [] = panic
  render_containers (c ∷ cs) = bind_outcome (render_container c) λ c'. ok (c' ∷ cs)

  -- The node selector: the job's, then the hardware type where one is given.
  unfoldable pub render_selector : Option (Dict String) → Option (Dict String)
  render_selector decoded =
      let chosen : Option (Dict String) = elim job.node_selector [
        | none ↦ decoded
        | some m ↦ some m
      ] in
      if env.trim_space job.workload_type == ""
      then chosen
      else put_or_make hardware_type_annotation job.workload_type chosen

  -- What follows the decoding, at the time `now`. The deadline is the length in whole seconds; the source
  -- truncates a float64 number of seconds, which is the same for lengths in whole seconds.
  unfoldable pub render_at : Time → JobManifest Q → Outcome (JobManifest Q)
  render_at now m = bind_outcome (put "app" job.name m.template_labels) λ labels.
      bind_outcome (render_containers m.containers) λ containers.
        let later = ltb now job.start_date in
        ok (record {
          name = job.name;
          annotations =
              if later
              then put_or_make job_start_date_annotation (env.format_date job.start_date)
                  m.annotations
              else m.annotations;
          suspend = if later then some true else m.suspend;
          active_deadline_seconds = some (div_ℤ job.length 1_000_000_000);
          template_labels = labels;
          template_annotations =
              put_or_make job_min_cpu_limit_annotation (env.format_float job.min_cpu_limit)
                m.template_annotations;
          node_selector = render_selector m.node_selector;
          containers = containers;
        })

module _ {F Q S : Type 0} ⦃q : Quantity Q⦄ (env : Env F Q) where
  -- RenderK8sJob: `decoded` is the decoder's answer to the constant StressJobPrototype.
  unfoldable pub render_k8s_job : StressJob F Q → Action (St S Q) (JobManifest Q)
  render_k8s_job job = do
    m ← lift env.decoded_prototype
    now ← observe env.now
    lift (render_at env job now m)

-- GetMinCpu
module _ {F Q : Type 0} (env : Env F Q) where
  abbrev pub parsed : Outcome F → Outcome F
  parsed (ok x) = ok x
  parsed (err e) = err "failed to parse min cpu limit"
  parsed panic = panic

  unfoldable pub get_min_cpu : Pod Q → Outcome F
  get_min_cpu pod = elim (lookup job_min_cpu_limit_annotation pod.annotations) [
    | none ↦ err "job min annotation not found"
    | some text ↦ parsed (env.parse_float text)
  ]
