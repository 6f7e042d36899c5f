-- ===== src/Examples/Servers.antt =====
-- The theorems on the server on/off strategy and on the length of a job, applied to the cluster.
use target_exporter.Prelude.{
  ℕ, ◌≡◌, refl, inl, inr, true, false, String, some, List, [], ◌∷◌, Dict, contains_key, length,
  arith, ltb, ◌==◌, if◌then◌else◌,
}
use target_exporter.Prelude.Int.{ℤ}
use target_exporter.Float.{Thousandths, thousandths_float, num}
use target_exporter.Outcome.{ok, err, panic}
use target_exporter.World.{St}
use target_exporter.Promclient.{NodeInstantCpuUsage, averages_from, get_avg_cpu_usages}
use target_exporter.Serverswitch.{Ipmi, IpmiServerSwitch, open_connection, new_ipmi_server_switch}
use target_exporter.Scheduling.ServerOnOff
use target_exporter.Scheduling.ServerOnOff.{retry_server_conn}
use target_exporter.Scheduling.ServerOnOff.Retrying.{IsBackAt, retry_server_conn-ends}
use target_exporter.Scheduling.ServerOnOff.Known.{
  Answers, RoundEnds, all_known, reconcile-RoundEnds,
}
use target_exporter.Startup.{init_server_on_off}
use target_exporter.Startup.Switches.{IsUnreachable, with_switches, init_server_on_off-reconcile}
use target_exporter.Examples.{milli_quantity, cluster, start}

-- A controller that accepts connections after five calls.
abbrev late : Ipmi ℤ
late = record {
  new_client = λ c log. ok 7;
  open_client = λ client log. if ltb (length log) 5 then err "no answer" else ok tt;
  chassis_status = λ client log. ok (record { is_completed = true; is_system_power_on = true });
  power_cycle = λ client log. ok true;
}

abbrev connected : String → IpmiServerSwitch
connected endpoint = record {
  bmc_endpoint = endpoint;
  c = some 1;
  connection = record {
    hostname = endpoint;
    port = 623;
    username = "u";
    password = "p";
    interface = "lan";
  };
}

late-IsBackAt : IsBackAt late 5
late-IsBackAt = record {
  calm_client = λ c log. tt;
  calm_open = λ client log. ground arith;
  has_client = λ c log h. (7, refl);
  has_open = λ client log h. ground arith;
}

retry_server_conn-ends_example :
    (st' : St IpmiServerSwitch ℤ) × (new : ℕ) × (retry_server_conn late 6 (start (connected "bmc"))
      ≡ (ok (some tt), st'))
    × (st'.own ≡ record (connected "bmc") { c = some new })
retry_server_conn-ends_example =
    retry_server_conn-ends late 5 1 5 (start (connected "bmc")) late-IsBackAt refl (omega arith)

late-Answers : Answers late
late-Answers = record { answers = λ client log. (_, refl, refl) }

abbrev one_switch : Dict IpmiServerSwitch
one_switch = ("n1", connected "bmc") ∷ []

abbrev some_averages : List (NodeInstantCpuUsage Thousandths)
some_averages =
    record { node_name = "n1"; usage = num 0 } ∷ record { node_name = "n2"; usage = num 2 } ∷ []

reconcile-RoundEnds_example :
    RoundEnds
      (all_known one_switch some_averages)
      (ServerOnOff.reconcile cluster late 10 (start one_switch)).0
unfolding get_avg_cpu_usages averages_from
reconcile-RoundEnds_example =
    reconcile-RoundEnds cluster late 10 (start one_switch) some_averages late-Answers
      ((1, refl), tt) refl

-- A network in which one controller has no address.
abbrev partial : Ipmi ℤ
partial = record late {
  new_client = λ c log. if c.hostname == "nowhere" then err "unknown host" else ok 7;
  open_client = λ client log. ok tt;
}

nowhere-IsUnreachable : IsUnreachable partial "u" "p" (Unit {0}) "nowhere"
unfolding new_ipmi_server_switch open_connection
nowhere-IsUnreachable = record { refuses = λ st sw e. cc }

abbrev mappings : Dict String
mappings = ("n1", "bmc") ∷ ("n2", "nowhere") ∷ []

abbrev made : Dict IpmiServerSwitch
made =
    (
      "n1",
      record {
        bmc_endpoint = "bmc";
        c = some 7;
        connection = record {
          hostname = "bmc";
          port = 623;
          username = "u";
          password = "p";
          interface = "lan";
        };
      },
    )
    ∷ []

abbrev after_start : St (Dict IpmiServerSwitch) ℤ
after_start = with_switches made (init_server_on_off partial "u" "p" mappings [] (start tt)).1

init_server_on_off-reconcile_example :
    (contains_key "n2" made ≡ false)
    × ((ServerOnOff.reconcile cluster partial 10 after_start).0 ≡ panic)
unfolding init_server_on_off new_ipmi_server_switch open_connection get_avg_cpu_usages averages_from
init_server_on_off-reconcile_example =
    init_server_on_off-reconcile cluster partial "u" "p" "n2" mappings (start tt) made 10
      some_averages (inl refl, (inr nowhere-IsUnreachable, tt)) refl
      (record { answers = λ client log. (_, refl, refl) }) refl (inr (inl refl))
