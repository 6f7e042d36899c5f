-- ===== src/World.antt =====
-- What stands outside of the repository's code: the types of the Kubernetes, Prometheus, IPMI and PyZHM
-- clients, and what calls of them answer. The answers are fields of an environment, each a function of
-- the events so far, so an answer may depend on all that the program has done before.
pub mod Calls
pub mod Covering
pub mod Counts
use target_exporter.Prelude.{ℕ, Bool, String, Option, List, [], ◌∷◌, ◌++◌, Dict}
use target_exporter.Prelude.Int.{ℤ}
use target_exporter.Outcome.{Outcome, ok, Action}

-- resource.Quantity of k8s.io/apimachinery.
pub record Quantity (Q : Type 0) : Type 0 where
  pub new_milli : ℤ → Q  -- *resource.NewMilliQuantity(n, DecimalSI)
  pub milli_value : Q → ℤ
  pub value : Q → ℤ
  pub add : Q → Q → Q
  pub sub : Q → Q → Q
  pub to_string : Q → String

-- time.Time in nanoseconds since the zero time, and time.Duration in nanoseconds.
abbrev pub Time : Type 0
Time = ℕ

abbrev pub Duration : Type 0
Duration = ℕ

pub data Phase : Type 0 where
  pending running succeeded failed unknown : Phase

pub record Condition : Type 0 where
  pub is_pod_scheduled : Bool  -- Type == v1.PodScheduled
  pub last_transition : Time

pub record OwnerReference : Type 0 where
  pub owner_name : String
  pub owner_kind : String

-- The fields of v1.Pod that the program reads. `limits` has Resources.Limits.Cpu() of each container.
pub record Pod (Q : Type 0) : Type 0 where
  pub name : String
  pub node_name : String
  pub phase : Phase
  pub created : String
  pub annotations : Dict String
  pub conditions : List Condition
  pub owners : List OwnerReference
  pub limits : List Q

-- The fields of a listed batch/v1 Job that the program reads. `suspend` is a pointer.
pub record Job : Type 0 where
  pub name : String
  pub active : ℕ
  pub succeeded : ℕ
  pub created : Time
  pub suspend : Option Bool
  pub annotations : Dict String

-- The container of a Job that the program renders; `env` holds names with values.
pub record Container (Q : Type 0) : Type 0 where
  pub limits : Option (Dict Q)
  pub requests : Option (Dict Q)
  pub env : List (String × String)

-- The parts of a batch/v1 Job that the program writes. A nil map is `none`.
pub record JobManifest (Q : Type 0) : Type 0 where
  pub name : String
  pub annotations : Option (Dict String)
  pub suspend : Option Bool
  pub active_deadline_seconds : Option ℤ
  pub template_labels : Option (Dict String)
  pub template_annotations : Option (Dict String)
  pub node_selector : Option (Dict String)
  pub containers : List (Container Q)

-- One sample of an instant vector: its labels and its value as text.
pub record Sample : Type 0 where
  pub labels : Dict String
  pub text : String

-- One series of a range query: its labels, and its values with their timestamps as text.
pub record Series (F : Type 0) : Type 0 where
  pub labels : Dict String
  pub values : List (String × F)

-- The calls that leave the process.
pub data Event (Q : Type 0) : Type 0 where
  list_pods list_pending_pods list_jobs : Event Q
  get_pod get_job get_node delete_pod delete_job delete_job_foreground : String → Event Q
  patch_cpu_limit : String → Q → Event Q
  create_job : JobManifest Q → Event Q
  update_suspend : String → Option Bool → Event Q
  query : String → Event Q
  query_range : String → Time → Time → Event Q
  post : String → String → Event Q
  ipmi_open ipmi_close ipmi_status ipmi_power_cycle : ℕ → Event Q

abbrev pub Log : Type 0 → Type 0
Log Q = List (Event Q)

-- What the environment answers after the events so far.
pub record Env (F Q : Type 0) : Type 0 where
  pub pods : Log Q → Outcome (List (Pod Q))
  pub pending_pods : Log Q → Outcome (List (Pod Q))
  pub jobs : Log Q → Outcome (List Job)
  pub pod_named : String → Log Q → Outcome (Pod Q)
  pub job_named : String → Log Q → Outcome Job
  pub acknowledge : Log Q → Outcome (Unit {0})  -- of a call whose reply is dropped
  pub samples : Log Q → Outcome (List Sample)
  pub series : Log Q → Outcome (List (Series F))
  pub marshal_scenario : Dict F → Dict F → Outcome String  -- json.Marshal
  pub post_reply : Log Q → Outcome (Outcome String)  -- http.Post, then io.ReadAll of the body
  pub unmarshal_predictions : String → Outcome (Dict String)  -- json.Unmarshal
  pub now : Log Q → Time
  pub parse_float : String → Outcome F  -- strconv.ParseFloat(s, 64)
  pub parse_int : String → Outcome ℤ  -- strconv.ParseInt(s, 10, 32)
  pub parse_int64 : String → Outcome ℤ  -- strconv.ParseInt(s, 10, 64)
  pub before_dot : String → String  -- strings.Split(s, ".")[0]
  pub parse_date : String → Outcome Time  -- time.Parse(time.RFC3339, s)
  pub format_date : Time → String
  pub format_float : F → String  -- fmt.Sprintf("%f", x)
  pub format_int : ℤ → String  -- strconv.Itoa(n)
  pub format_minutes : ℤ → String  -- fmt.Sprintf("%.0fm", d.Minutes())
  pub trim_space : String → String  -- strings.TrimSpace(s)
  pub decoded_prototype : Outcome (JobManifest Q)  -- the YAML decoder on StressJobPrototype
  pub fresh_suffix : Log Q → String  -- uuid.New().String()[0:8]

-- A component's own fields beside the events so far.
pub record St (S Q : Type 0) : Type 0 where
  pub own : S
  pub log : Log Q

-- A call: it is recorded, and answered by what the events before it have led to.
module _ {S Q A : Type 0} where
  abbrev pub call : Event Q → (Log Q → Outcome A) → Action (St S Q) A
  call e answer st = (answer st.log, record st { log = st.log ++ (e ∷ []) })

module _ {S Q A : Type 0} where
  -- A value read from the environment with no event, such as the clock.
  abbrev pub observe : (Log Q → A) → Action (St S Q) A
  observe read st = (ok (read st.log), st)

module _ {S Q A : Type 0} where
  -- A step that only touches the component's own fields.
  abbrev pub within : Action S A → Action (St S Q) A
  within m st = ((m st.own).0, record st { own = (m st.own).1 })
