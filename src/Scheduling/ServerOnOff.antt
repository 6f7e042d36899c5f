-- ===== src/Scheduling/ServerOnOff.antt =====
-- pkg/scheduling/serveronoff.go: at each round the strategy asks every measured server whether it is
-- on, and connects again to a server that does not answer. The code that would switch servers off is
-- commented out in the source.
pub mod Retrying
pub mod Asking
pub mod Known
use target_exporter.Prelude.{
  ℕ, zero, suc, Bool, String, Option, none, some, List, [], ◌∷◌, Dict, lookup, insert,
}
use target_exporter.Float.{Float64}
use target_exporter.Outcome.{Outcome, ok, err, panic, Action}
use target_exporter.World.{Env, St}
use target_exporter.Promclient.{NodeInstantCpuUsage, get_avg_cpu_usages}
use target_exporter.Serverswitch.{Ipmi, IpmiServerSwitch, is_server_on, retry_conn}

module _ {Q : Type 0} (ipmi : Ipmi Q) where
  -- The loop without a bound, for at most so many attempts: `none` when they are used up. The pause
  -- between two attempts is left out.
  unfoldable pub retry_server_conn : ℕ → Action (St IpmiServerSwitch Q) (Option (Unit {0}))
  retry_server_conn zero st = (ok none, st)
  retry_server_conn (suc fuel) st =
      let (attempt, st') = retry_conn ipmi st in
      elim attempt [
        | ok _ ↦ (ok (some tt), st')
        | err e ↦ retry_server_conn fuel st'
        | panic ↦ (panic, st')
      ]

  -- The body of the range for the node's switch.
  unfoldable pub check_switch : ℕ → Action (St IpmiServerSwitch Q) (Option (Unit {0}))
  check_switch fuel st =
      let (is_on, st') = is_server_on ipmi st in
      elim is_on [
        | ok _ ↦ (ok (some tt), st')
        | err e ↦ retry_server_conn fuel st'
        | panic ↦ (panic, st')
      ]

  -- A method of `t.serverSwitches[node]`: the entry of an unknown node is a nil pointer.
  unfoldable pub check_server :
      ℕ → String → Action (St (Dict IpmiServerSwitch) Q) (Option (Unit {0}))
  check_server fuel node st = elim (lookup node st.own) [
    | none ↦ (panic, st)
    | some srv_switch ↦
        let (result, st') = check_switch fuel (record { own = srv_switch; log = st.log }) in
        (result, record { own = insert node st'.own st.own; log = st'.log })
  ]

  module _ {F : Type 0} where
    -- The range over the averages; `none` when an attempt has used up the fuel.
    unfoldable pub check_servers :
        ℕ → List (NodeInstantCpuUsage F) → Action (St (Dict IpmiServerSwitch) Q) (Option (Unit {0}))
    check_servers fuel [] st = (ok (some tt), st)
    check_servers fuel (v ∷ rest) st =
        let (result, st') = check_server fuel v.node_name st in
        elim result [
          | ok none ↦ (ok none, st')
          | ok (some _) ↦ check_servers fuel rest st'
          | err e ↦ (err e, st')
          | panic ↦ (panic, st')
        ]

    unfoldable pub check_answer :
        ℕ
        → Outcome (List (NodeInstantCpuUsage F))
        → Action (St (Dict IpmiServerSwitch) Q) (Option (Unit {0}))
    check_answer fuel (ok averages) st = check_servers fuel averages st
    check_answer fuel (err e) st = (err e, st)
    check_answer fuel panic st = (panic, st)

module _ {F Q : Type 0} where
  unfoldable pub reconcile :
      Env F Q → Ipmi Q → ℕ → Action (St (Dict IpmiServerSwitch) Q) (Option (Unit {0}))
  reconcile env ipmi fuel st =
      let (answer, st') = get_avg_cpu_usages env st in check_answer ipmi fuel answer st'
