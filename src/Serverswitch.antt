-- ===== src/Serverswitch.antt =====
-- pkg/serverswitch/ipmi.go: the switch of a server by its baseboard controller. The IPMI library is an
-- argument: a client is a number, and a request of a client is a call that leaves the process.
use target_exporter.Prelude.{ℕ, Bool, String, Option, none, some, if◌then◌else◌}
use target_exporter.Outcome.{Outcome, ok, err, Action, ◌>>=◌, ◌>>◌, pure, fail, crash, lift}
use target_exporter.World.{ipmi_open, ipmi_close, ipmi_status, ipmi_power_cycle, Log, St, call}

pub record Connection : Type 0 where
  pub hostname : String
  pub port : ℕ
  pub username : String
  pub password : String
  pub interface : String

-- The fields of ChassisStatusResponse that the program reads: whether the completion code is
-- CommandCompleted, and IsSystemPowerOn().
pub record ChassisStatus : Type 0 where
  pub is_completed : Bool
  pub is_system_power_on : Bool

-- What the library answers after the calls so far.
pub record Ipmi (Q : Type 0) : Type 0 where
  pub new_client : Connection → Log Q → Outcome ℕ
  pub open_client : ℕ → Log Q → Outcome (Unit {0})
  pub chassis_status : ℕ → Log Q → Outcome ChassisStatus
  pub power_cycle : ℕ → Log Q → Outcome Bool  -- whether the completion code is CommandCompleted

-- `c` is a pointer.
pub record IpmiServerSwitch : Type 0 where
  pub bmc_endpoint : String
  pub c : Option ℕ
  pub connection : Connection

module _ {S Q : Type 0} (ipmi : Ipmi Q) where
  unfoldable pub open_connection : Connection → Action (St S Q) ℕ
  open_connection c = do
    client ← λ st. (ipmi.new_client c st.log, st)
    _ ← call (ipmi_open client) (ipmi.open_client client)
    pure client

  unfoldable pub new_ipmi_server_switch :
      String → String → String → Action (St S Q) IpmiServerSwitch
  new_ipmi_server_switch endpoint username password = do
    let c : Connection = record {
      hostname = endpoint;
      port = 623;
      username = username;
      password = password;
      interface = "lan";
    }
    client ← open_connection c
    pure (record { bmc_endpoint = endpoint; c = some client; connection = c })

abbrev pub power_state : ChassisStatus → Outcome Bool
power_state response =
    if response.is_completed
    then ok response.is_system_power_on
    else err "error getting chassis status"

module _ {Q : Type 0} (ipmi : Ipmi Q) where
  unfoldable pub power_on : Action (St IpmiServerSwitch Q) (Unit {0})
  power_on = pure tt

  -- A request of a nil client is a nil dereference.
  unfoldable pub power_off_by : Option ℕ → Action (St IpmiServerSwitch Q) (Unit {0})
  power_off_by none = crash
  power_off_by (some client) = do
    is_completed ← call (ipmi_power_cycle client) (ipmi.power_cycle client)
    if is_completed then pure tt else fail "error powering off server"

  unfoldable pub power_off : Action (St IpmiServerSwitch Q) (Unit {0})
  power_off st = power_off_by st.own.c st

  -- The endpoint in the text of the first error is left out.
  unfoldable pub is_server_on_by : Option ℕ → Action (St IpmiServerSwitch Q) Bool
  is_server_on_by none = fail "client is nil"
  is_server_on_by (some client) = do
    response ← call (ipmi_status client) (ipmi.chassis_status client)
    lift (power_state response)

  unfoldable pub is_server_on : Action (St IpmiServerSwitch Q) Bool
  is_server_on st = is_server_on_by st.own.c st

  -- The error of Close is dropped.
  unfoldable pub close : Option ℕ → Action (St IpmiServerSwitch Q) (Unit {0})
  close none = crash
  close (some client) = call (ipmi_close client) (λ _. ok tt)

  unfoldable pub retry_conn : Action (St IpmiServerSwitch Q) (Unit {0})
  retry_conn st =
      (close st.own.c
          >> (open_connection ipmi st.own.connection >>= λ client st'.
              (ok tt, record st' { own = record st'.own { c = some client } })))
        st

abbrev pub get_bmc_endpoint : IpmiServerSwitch → String
get_bmc_endpoint i = i.bmc_endpoint
