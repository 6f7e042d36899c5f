-- ===== src/Startup/Switches.antt =====
-- The switches that start-up leaves out, and what the server on/off strategy makes of that.
use target_exporter.Prelude.{
  ℕ, ◌≡◌, ◌≢◌, refl, inl, inr, ◌⊎◌, false, String, some, List, [], ◌∷◌, Dict, insert, contains_key,
  contains_key-insert, All, In, map, subst, ap, ◌∙◌, arith, ◌==◌,
}
use target_exporter.Outcome.{Outcome, ok, err, panic, OnOk, Outcome-cases, and_then, pure}
use target_exporter.World.{Env, St}
use target_exporter.Promclient.{NodeInstantCpuUsage, get_avg_cpu_usages}
use target_exporter.Serverswitch.{
  Ipmi, Connection, IpmiServerSwitch, open_connection, new_ipmi_server_switch,
}
use target_exporter.Scheduling.ServerOnOff.{reconcile}
use target_exporter.Scheduling.ServerOnOff.Known.{
  HasClients, all_known, Answers, reconcile-RoundEnds,
}
use target_exporter.Startup.{init_server_on_off}

module _ {Q : Type 0} (ipmi : Ipmi Q) (username password : String) where
  -- No connection to the endpoint succeeds.
  pub record IsUnreachable (S : Type 0) (endpoint : String) : Type 0 where
    pub refuses :
        (st : St S Q) (sw : IpmiServerSwitch)
        → (new_ipmi_server_switch ipmi endpoint username password st).0 ≢ ok sw

  abbrev HasClient : IpmiServerSwitch → Type 0
  HasClient sw = (client : ℕ) × (sw.c ≡ some client)

  new_ipmi_server_switch-HasClient :
      {S : Type 0} (endpoint : String) (st : St S Q)
      → OnOk HasClient (new_ipmi_server_switch ipmi endpoint username password st).0
  unfolding new_ipmi_server_switch
  new_ipmi_server_switch-HasClient {S} endpoint st =
      let c : Connection = record {
        hostname = endpoint;
        port = 623;
        username = username;
        password = password;
        interface = "lan";
      } in
      by_client (open_connection ipmi c st).0 _ (open_connection ipmi c st).1
        (λ client. (client, refl))
    where
      by_client :
          (o : Outcome ℕ) (make : ℕ → IpmiServerSwitch) (st' : St S Q)
          → ((client : ℕ) → HasClient (make client))
          → OnOk HasClient (and_then o (λ client. pure (make client)) st').0
      by_client (ok client) make st' h = h client
      by_client (err t) make st' h = tt
      by_client panic make st' h = tt

  insert-HasClients :
      (k : String) (sw : IpmiServerSwitch) (m : Dict IpmiServerSwitch)
      → HasClient sw
      → HasClients m
      → HasClients (insert k sw m)
  insert-HasClients k sw [] p h = (p, tt)
  insert-HasClients k sw ((j, s) ∷ m) p h = ground (arith, insert-HasClients k sw m p h.1)

  -- Each entry is another node's, or its endpoint cannot be reached.
  abbrev pub IsCutOff : Type 0 → String → Dict String → Type 0
  IsCutOff S node mappings = All (λ e. ((e.0 == node) ≡ false) ⊎ IsUnreachable S e.1) mappings

  -- What the loop makes of the switches so far.
  abbrev IsBuilt : String → Dict IpmiServerSwitch → Type 0
  IsBuilt node m = HasClients m × (contains_key node m ≡ false)

  init_server_on_off-IsBuilt :
      {S : Type 0} (node : String) (mappings : Dict String) (switches : Dict IpmiServerSwitch)
      (st : St S Q)
      → IsCutOff S node mappings
      → IsBuilt node switches
      → OnOk (IsBuilt node) (init_server_on_off ipmi username password mappings switches st).0
  unfolding init_server_on_off
  init_server_on_off-IsBuilt {S} node [] switches st cut built = built
  init_server_on_off-IsBuilt {S} node ((k, endpoint) ∷ rest) switches st (cut, more)
        (clients, absent) =
      let made = new_ipmi_server_switch ipmi endpoint username password st in
      elim (Outcome-cases made.0) [
        | inl (sw, e) ↦
            let client = subst (OnOk HasClient) e (new_ipmi_server_switch-HasClient endpoint st) in
            let other : (k == node) ≡ false = elim cut [
              | inl h ↦ h
              | inr u ↦ absurd (u.refuses st sw e)
            ] in
            rw (e, init_server_on_off)
              (init_server_on_off-IsBuilt node rest (insert k sw switches) made.1 more (
                insert-HasClients k sw switches client clients,
                contains_key-insert k node sw switches ∙ rw other absent,
              ))
        | inr (inl (t, e)) ↦
            rw (e, init_server_on_off)
              (init_server_on_off-IsBuilt node rest switches made.1 more (clients, absent))
        | inr (inr e) ↦ rw (e, init_server_on_off) tt
      ]

all_known-absent :
    {F : Type 0} (m : Dict IpmiServerSwitch) (averages : List (NodeInstantCpuUsage F))
    (node : String)
    → contains_key node m ≡ false
    → In node (map (λ v. v.node_name) averages)
    → all_known m averages ≡ false
all_known-absent m [] node h i = absurd i
all_known-absent m (v ∷ rest) node h (inl e) = ground (arith, ap (λ k. contains_key k m) e)
all_known-absent m (v ∷ rest) node h (inr i) = ground (arith, all_known-absent m rest node h i)

-- The strategy gets the switches.
abbrev pub with_switches :
    {Q : Type 0} → Dict IpmiServerSwitch → St (Unit {0}) Q → St (Dict IpmiServerSwitch) Q
with_switches switches st = record { own = switches; log = st.log }

-- A node whose BMC cannot be reached has no switch after a start-up that does not panic, and if
-- Prometheus then returns an average for it, the first round of the server on/off strategy panics,
-- also when each request of the status is completed.
pub init_server_on_off-reconcile :
    {F Q : Type 0} (env : Env F Q) (ipmi : Ipmi Q) (username password node : String)
    (mappings : Dict String) (st : St (Unit {0}) Q) (switches : Dict IpmiServerSwitch) (fuel : ℕ)
    (averages : List (NodeInstantCpuUsage F))
    → IsCutOff ipmi username password (Unit {0}) node mappings
    → (init_server_on_off ipmi username password mappings [] st).0 ≡ ok switches
    → Answers ipmi
    → (get_avg_cpu_usages env
        (with_switches switches (init_server_on_off ipmi username password mappings [] st).1)).0
      ≡ ok averages
    → In node (map (λ v. v.node_name) averages)
    → (contains_key node switches ≡ false)
      × ((reconcile env ipmi fuel
            (with_switches switches (init_server_on_off ipmi username password mappings [] st).1)).0
          ≡ panic)
init_server_on_off-reconcile env ipmi username password node mappings st switches fuel averages cut
      made all e i =
    let (clients, absent) =
      subst (OnOk (IsBuilt ipmi username password node)) made
        (init_server_on_off-IsBuilt ipmi username password node mappings [] st cut (tt, refl)) in
    (
      absent,
      rw (all_known-absent switches averages node absent i) at
          (reconcile-RoundEnds env ipmi fuel _ averages all clients e),
    )
