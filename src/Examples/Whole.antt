-- ===== src/Examples/Whole.antt =====
-- The theorems on the whole program, applied to a run on the cluster.
use target_exporter.Prelude.{◌≡◌, ◌⊎◌, refl, true, false, some, List, [], ◌∷◌, Dict, All, In, keys}
use target_exporter.Prelude.Int.{ℤ, pos}
use target_exporter.Float.{Thousandths, thousandths_float, Thousandths-IsOrdered, num}
use target_exporter.Outcome.{ok}
use target_exporter.Scheduling.Strategy
use target_exporter.Scheduling.Strategy.{
  Command, LoopAt, Label, obey, goes_to, take_lock, announce, hand_over,
}
use target_exporter.Scheduling.Orchestrator.Forwarding.{started, new_orchestrator}
use target_exporter.Scheduling.SchedulableStrategy.Flags.{AtMostOne}
use target_exporter.Serverswitch.{Ipmi, IpmiServerSwitch, open_connection, new_ipmi_server_switch}
use target_exporter.Infrastructure.Exporter
use target_exporter.Infrastructure.Exporter.Runs.{IsConsistent}
use target_exporter.Infrastructure.Switching.{Name}
use target_exporter.Infrastructure.Routes.{Handler, Input}
use target_exporter.System.{System, Setup, new_system, with_strategy, handle, round_of, is_calm}
use target_exporter.System.Running.{Act, Step, Run}
use target_exporter.Startup.Main.{Config, Libraries, init_prom_client, init_checked, init, main}
use target_exporter.Startup.{check_config, init_server_on_off}
use target_exporter.Kubeclient.{is_node_name_valid}
use target_exporter.Startup.Checked.{IsAcknowledged}
use target_exporter.Startup.Started.{main-IsAcknowledged}
use target_exporter.System.Powers.{kind}
use target_exporter.System.Blame.{IsBlamed, Run-IsBlamed}
use target_exporter.System.Orders.{HasOrder, Run-HasOrder}
use target_exporter.System.Prompting.{Prompts}
use target_exporter.System.Whole.{Run-IsConsistent_whole, Run-AtMostOne_whole}
use target_exporter.System.Creating.{budgets, IsWithin}
use target_exporter.System.Budget.{Run-IsWithin}
use target_exporter.Examples.{milli_quantity, cluster, start}

-- Every request of a controller succeeds.
abbrev pub prompt_ipmi : Ipmi ℤ
prompt_ipmi = record {
  new_client = λ c log. ok 7;
  open_client = λ client log. ok tt;
  chassis_status = λ client log. ok (record { is_completed = true; is_system_power_on = true });
  power_cycle = λ client log. ok true;
}

abbrev pub setup : Setup Thousandths ℤ
setup = record {
  env = cluster;
  ipmi = prompt_ipmi;
  settings = record {
    tawa_enabled = false;
    dummy = "n1";
    pyzhm_node_mappings = [];
    pyzhm_address = "";
  };
  setpoints = num 1 ∷ [];
  fuel = 3;
}

abbrev pub config : Dict Thousandths
config = ("n1", num 5) ∷ ("n2", num 5) ∷ []

abbrev pub input : Input Thousandths
input = record {
  targets = ok (("n1", num 7) ∷ []);
  workload = ok (record {
    pod_name = "p1";
    cpu_target = pos 10;
    cpu_count = pos 4;
    job_length = pos 5;
    workload_type = "";
    min_cpu_limit = num 2;
    scenario = [];
  });
  scenario = ok [];
  enabled = ok true;
  start = "";
  end = "";
}

abbrev libraries : Libraries Thousandths
libraries = record {
  config_file = ok (record {
    target_metric_name = "cpu_target";
    targets = config;
    pyzhm_node_mappings = [];
    bmc_node_mappings = ("n1", "bmc1") ∷ [];
    bmc_username = "u";
    bmc_password = "p";
    setpoints = num 1 ∷ [];
  });
  kube_client = ok tt;
  prom_client = ok tt;
}

abbrev pub first : System Thousandths ℤ
first = new_system config [] 0

-- The schedulable strategy obeys its Start, a workload is posted, and the strategy has a round.
abbrev ready : System Thousandths ℤ
ready = with_strategy Name.schedulable (obey Command.start started) first

abbrev posted : System Thousandths ℤ
posted = (handle setup Handler.post_workloads input ready).1

abbrev reconciled : System Thousandths ℤ
reconciled =
    record (with_strategy Name.schedulable (goes_to LoopAt.reconciling (obey Command.start started))
      (round_of setup Name.schedulable posted).1) {
        is_up = is_calm (round_of setup Name.schedulable posted).0;
      }

abbrev acts : List (Act Thousandths)
acts = Act.round Name.schedulable ∷ Act.request Handler.post_workloads input ∷ Act.inner ∷ []

run : Run setup first acts reconciled
unfolding new_system new_orchestrator started take_lock announce hand_over obey handle
run =
    Run.next
      (Run.next
        (Run.next Run.here refl (
          Step.move Name.schedulable Label.quiet (obey Command.start started) tt
            (Strategy.Step.set started Command.start refl)))
        refl (Step.handle_request Handler.post_workloads input))
      refl
      (Step.reconcile Name.schedulable (goes_to LoopAt.reconciling (obey Command.start started))
        (Strategy.Step.work (obey Command.start started) refl refl) tt)

Run-IsBlamed_example : All (IsBlamed acts) reconciled.exporter.log
unfolding new_system Exporter.start_metrics
Run-IsBlamed_example = Run-IsBlamed setup refl run

Run-HasOrder_example : All (λ e. HasOrder acts (kind e)) reconciled.exporter.log
Run-HasOrder_example = Run-HasOrder setup config [] 0 run

Run-IsWithin_example : IsWithin 0 (budgets acts) reconciled
Run-IsWithin_example = Run-IsWithin setup config [] 0 run

Run-IsConsistent_whole_example : IsConsistent config reconciled.exporter
Run-IsConsistent_whole_example =
    Run-IsConsistent_whole setup config [] 0 Thousandths-IsOrdered (refl, (refl, tt)) run

Run-AtMostOne_whole_example :
    AtMostOne reconciled.exporter.schedulable
    ⊎ ((a : Act Thousandths) × In a acts × Prompts Name.schedulable Command.stop a)
Run-AtMostOne_whole_example =
    Run-AtMostOne_whole setup config [] 0 Thousandths-IsOrdered (refl, (refl, tt)) refl run

abbrev switches : Dict IpmiServerSwitch
switches =
    (
      "n1",
      record {
        bmc_endpoint = "bmc1";
        c = some 7;
        connection = record {
          hostname = "bmc1";
          port = 623;
          username = "u";
          password = "p";
          interface = "lan";
        };
      },
    )
    ∷ []

abbrev served : System Thousandths ℤ
served = new_system config switches 104

main-IsAcknowledged_example :
    (c : Config Thousandths) × (libraries.config_file ≡ ok c)
    × (served ≡ new_system c.targets served.switches served.spawn.reset_time)
    × All
        (IsAcknowledged cluster (main cluster prompt_ipmi libraries (start tt)).1.log)
        (keys c.targets)
unfolding main init init_checked init_prom_client check_config is_node_name_valid init_server_on_off
    new_ipmi_server_switch open_connection
main-IsAcknowledged_example =
    main-IsAcknowledged cluster prompt_ipmi libraries (start tt) (new_system config switches 104)
      refl
