-- ===== src/Examples.antt =====
-- A small cluster on which the theorems are applied: quantities in thousandths of a CPU, and services
-- that answer with fixed lists.
mod Clients
mod Rounds
mod Calls
mod Handover
mod Requests
mod Servers
mod Whole
mod Served
use target_exporter.Prelude.{
  ℕ, ◌+◌, Bool, true, false, String, none, some, List, [], ◌∷◌, Dict, length, ◌==◌, if◌then◌else◌,
}
use target_exporter.Prelude.Int.{ℤ, pos, ◌+ℤ◌, ◌-ℤ◌, div_ℤ}
use target_exporter.Float.{Thousandths, thousandths_float, num}
use target_exporter.Outcome.{Outcome, ok, err}
use target_exporter.World.{
  Quantity, Phase, OwnerReference, Pod, Job, Container, JobManifest, Sample, Env, St,
}

instance abbrev pub milli_quantity : Quantity ℤ
milli_quantity = record {
  new_milli = λ n. n;
  milli_value = λ n. n;
  value = λ n. div_ℤ n 1000;
  add = λ a b. a +ℤ b;
  sub = λ a b. a -ℤ b;
  to_string = λ n. "250m";
}

abbrev pub job_at : String → ℕ → ℕ → ℕ → Bool → Job
job_at name active succeeded created suspend = record {
  name = name;
  active = active;
  succeeded = succeeded;
  created = created;
  suspend = some suspend;
  annotations = ("ecoqube.eu/start", "today") ∷ [];
}

abbrev pub pod_of : String → String → Phase → Pod ℤ
pod_of name owner phase = record {
  name = name;
  node_name = "n1";
  phase = phase;
  created = "today";
  annotations = ("ecoqube.eu/min-cpu-limit", "2") ∷ [];
  conditions = [];
  owners = record { owner_name = owner; owner_kind = "Job" } ∷ [];
  limits = pos 2000 ∷ [];
}

abbrev pub some_jobs : List Job
some_jobs = job_at "old" 0 1 3 true ∷ job_at "waiting" 0 0 5 true ∷ job_at "later" 0 0 9 false ∷ []

abbrev pub some_pods : List (Pod ℤ)
some_pods =
    pod_of "p1" "old" Phase.succeeded
    ∷ pod_of "p2" "waiting" Phase.pending
    ∷ pod_of "p3" "later" Phase.pending
    ∷ []

abbrev pub reading : String → String → Sample
reading node text = record { labels = ("instance", node) ∷ []; text = text }

abbrev pub some_samples : List Sample
some_samples = reading "n1" "0" ∷ reading "n2" "2" ∷ []

abbrev pub prototype : JobManifest ℤ
prototype = record {
  name = "cpu-stresstest";
  annotations = none;
  suspend = none;
  active_deadline_seconds = none;
  template_labels = some [];
  template_annotations = none;
  node_selector = none;
  containers =
      record {
        limits = some [];
        requests = some [];
        env = ("MAX_CPU_CORES", "1") ∷ ("STRESS_SYSTEM_FOR", "10m") ∷ [];
      }
      ∷ [];
}

abbrev pub cluster : Env Thousandths ℤ
cluster = record {
  pods = λ _. ok some_pods;
  pending_pods = λ _. ok some_pods;
  jobs = λ _. ok some_jobs;
  pod_named = λ name _. ok (pod_of name "waiting" Phase.running);
  job_named = λ name _. ok (job_at name 0 0 0 true);
  acknowledge = λ _. ok tt;
  samples = λ _. ok some_samples;
  series = λ _. ok (record { labels = ("instance", "n1") ∷ []; values = ("7.5", num 2) ∷ [] } ∷ []);
  marshal_scenario = λ _ _. ok "{}";
  post_reply = λ _. ok (ok "{}");
  unmarshal_predictions = λ _. ok [];
  now = λ log. 100 + length log;
  parse_float = λ t. if t == "2" then ok (num 2) else if t == "0" then ok (num 0) else err t;
  parse_int = λ t. ok (pos 4);
  parse_int64 = λ t. ok (pos 7);
  before_dot = λ t. "7";
  parse_date = λ t. err t;
  format_date = λ t. "today";
  format_float = λ x. "2";
  format_int = λ n. "4";
  format_minutes = λ n. "10m";
  trim_space = λ t. t;
  decoded_prototype = ok prototype;
  fresh_suffix = λ _. "abcdef01";
}

abbrev pub start : {S : Type 0} → S → St S ℤ
start own = record { own = own; log = [] }
