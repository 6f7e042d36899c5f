-- ===== src/Startup.antt =====
-- main.go: the check of the configured node names and a switch for each server; Main has the order in
-- which the parts are started.
pub mod Switches
pub mod Main
pub mod Checked
pub mod Started
use target_exporter.Prelude.{
  Bool, true, false, String, List, [], ◌∷◌, ◌++◌, Dict, insert, if◌then◌else◌,
}
use target_exporter.Outcome.{Outcome, ok, err, panic, Action, ◌>>=◌, pure}
use target_exporter.World.{Env, St}
use target_exporter.Kubeclient.{is_node_name_valid}
use target_exporter.Scheduling.Orchestrator.Forwarding.{Strategies, started, new_orchestrator}
use target_exporter.Serverswitch.{Ipmi, IpmiServerSwitch, new_ipmi_server_switch}

module _ {F Q S V : Type 0} (env : Env F Q) where
  -- checkConfig: the configured names that are not those of nodes of the cluster. The program ends if
  -- there are any.
  unfoldable pub check_config : Dict V → Action (St S Q) (List String)
  check_config [] = pure []
  check_config ((node, target) ∷ rest) = do
    is_valid ← is_node_name_valid env node
    invalid_names ← check_config rest
    pure (if is_valid then invalid_names else node ∷ invalid_names)

-- initOrchestrator, which starts the server on/off strategy before the orchestrator is made.
abbrev pub init_orchestrator : Strategies
init_orchestrator = new_orchestrator started

module _ {Q S : Type 0} (ipmi : Ipmi Q) (username password : String) where
  -- The range over BmcNodeMappings, with the map built so far.
  unfoldable pub init_server_on_off :
      Dict String → Dict IpmiServerSwitch → Action (St S Q) (Dict IpmiServerSwitch)
  init_server_on_off [] switches st = (ok switches, st)
  init_server_on_off ((node, endpoint) ∷ rest) switches st =
      let (result, st') = new_ipmi_server_switch ipmi endpoint username password st in
      elim result [
        | ok sswitch ↦ init_server_on_off rest (insert node sswitch switches) st'
        | err e ↦ init_server_on_off rest switches st'
        | panic ↦ (panic, st')
      ]
