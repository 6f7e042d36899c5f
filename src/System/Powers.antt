-- ===== src/System/Powers.antt =====
-- The kinds of the calls that leave the process, and who may make them.
use target_exporter.Prelude.{List, [], ◌∷◌, In}
use target_exporter.World.{Event}
use target_exporter.Infrastructure.Switching.{Name}
use target_exporter.Infrastructure.Routes.{Handler}
use target_exporter.System.Running.{Act}

-- To read from Kubernetes, Prometheus or PyZHM; to create, resume or delete jobs and pods; to patch a
-- CPU limit; to open, close or read an IPMI client; and to switch a server's power.
pub data Kind : Type 0 where
  ask create resume delete patch connect power : Kind

abbrev pub kind : {Q : Type 0} → Event Q → Kind
kind Event.list_pods = Kind.ask
kind Event.list_pending_pods = Kind.ask
kind Event.list_jobs = Kind.ask
kind (Event.get_pod name) = Kind.ask
kind (Event.get_job name) = Kind.ask
kind (Event.get_node name) = Kind.ask
kind (Event.delete_pod name) = Kind.delete
kind (Event.delete_job name) = Kind.delete
kind (Event.delete_job_foreground name) = Kind.delete
kind (Event.patch_cpu_limit name limit) = Kind.patch
kind (Event.create_job manifest) = Kind.create
kind (Event.update_suspend name suspend) = Kind.resume
kind (Event.query text) = Kind.ask
kind (Event.query_range text from until) = Kind.ask
kind (Event.post url payload) = Kind.ask
kind (Event.ipmi_open client) = Kind.connect
kind (Event.ipmi_close client) = Kind.connect
kind (Event.ipmi_status client) = Kind.connect
kind (Event.ipmi_power_cycle client) = Kind.power

abbrev pub reads : List Kind
reads = Kind.ask ∷ []

abbrev pub reads_and : Kind → List Kind
reads_and k = Kind.ask ∷ k ∷ []

abbrev pub powers_of_handler : Handler → List Kind
powers_of_handler Handler.get_targets = []
powers_of_handler Handler.post_targets = []
powers_of_handler Handler.get_workloads = reads
powers_of_handler Handler.post_workloads = reads_and Kind.create
powers_of_handler Handler.patch_workload = reads_and Kind.patch
powers_of_handler Handler.delete_completed = reads_and Kind.delete
powers_of_handler Handler.delete_pending_last = reads_and Kind.delete
powers_of_handler Handler.get_cpu_usage = reads
powers_of_handler Handler.get_cpu_diff = reads
powers_of_handler (Handler.get_switch k) = []
powers_of_handler (Handler.put_switch k) = []
powers_of_handler Handler.post_job_scenario = reads_and Kind.create

abbrev pub powers_of_round : Name → List Kind
powers_of_round Name.self_driving = reads_and Kind.patch
powers_of_round Name.schedulable = reads
powers_of_round Name.tawa = []
powers_of_round Name.server_on_off = reads_and Kind.connect
powers_of_round Name.reduce_targets = reads
powers_of_round Name.automatic_job_spawn = reads_and Kind.create

abbrev pub powers : {F : Type 0} → Act F → List Kind
powers (Act.request h input) = powers_of_handler h
powers (Act.round k) = powers_of_round k
powers Act.jobs_round = reads_and Kind.resume
powers Act.mark_all = []
powers Act.inner = []

-- The call is of one of the kinds.
abbrev pub IsOf : {Q : Type 0} → List Kind → Event Q → Type 0
IsOf kinds e = In (kind e) kinds
