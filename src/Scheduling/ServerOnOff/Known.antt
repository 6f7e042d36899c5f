-- ===== src/Scheduling/ServerOnOff/Known.antt =====
-- A round when every server answers, and a node without a switch.
use target_exporter.Prelude.{
  ℕ, ◌≡◌, refl, inl, inr, Bool, true, false, ◌&&◌, String, none, some, List, [], ◌∷◌, Dict, lookup,
  insert, contains_key, All, Option-cases, Bool-cases, arith,
}
use target_exporter.Prelude.{Option}
use target_exporter.Outcome.{Outcome, ok, panic}
use target_exporter.World.{Log, Env, St}
use target_exporter.Promclient.{NodeInstantCpuUsage, get_avg_cpu_usages}
use target_exporter.Promclient.Samples.{get_avg_cpu_usages-own}
use target_exporter.Serverswitch.{
  Ipmi, ChassisStatus, IpmiServerSwitch, is_server_on_by, is_server_on,
}
use target_exporter.Scheduling.ServerOnOff.{
  check_switch, check_server, check_servers, check_answer, reconcile,
}

-- Every switch has a client.
abbrev pub HasClients : Dict IpmiServerSwitch → Type 0
HasClients m = All (λ e. (client : ℕ) × (e.1.c ≡ some client)) m

abbrev pub all_known : {F : Type 0} → Dict IpmiServerSwitch → List (NodeInstantCpuUsage F) → Bool
all_known m [] = true
all_known m (v ∷ rest) = contains_key v.node_name m && all_known m rest

lookup-HasClients :
    (k : String) (m : Dict IpmiServerSwitch) (sw : IpmiServerSwitch)
    → HasClients m
    → lookup k m ≡ some sw
    → (client : ℕ) × (sw.c ≡ some client)
lookup-HasClients k [] sw h e = cc
lookup-HasClients k ((j, s) ∷ m) sw h e = ground (arith, lookup-HasClients k m sw h.1)

insert_same :
    (k : String) (m : Dict IpmiServerSwitch) (sw : IpmiServerSwitch)
    → lookup k m ≡ some sw
    → insert k sw m ≡ m
insert_same k [] sw e = cc
insert_same k ((j, s) ∷ m) sw e = ground (arith, insert_same k m sw)

contains_key-lookup :
    (k : String) (m : Dict IpmiServerSwitch)
    → contains_key k m ≡ (elim (lookup k m) as (λ _. Bool) [ none ↦ false | some _ ↦ true ])
contains_key-lookup k [] = refl
contains_key-lookup k ((j, s) ∷ m) = ground (arith, contains_key-lookup k m)

-- What the loop comes to: an end without an error, or a panic.
abbrev pub RoundEnds : Bool → Outcome (Option (Unit {0})) → Type 0
RoundEnds true o = o ≡ ok (some tt)
RoundEnds false o = o ≡ panic

module _ {Q : Type 0} (ipmi : Ipmi Q) where
  -- Each request of the status is completed.
  pub record Answers : Type 0 where
    pub answers :
        (client : ℕ) (log : Log Q)
        → (response : ChassisStatus) × (ipmi.chassis_status client log ≡ ok response)
          × (response.is_completed ≡ true)

  is_server_on_lem :
      (client : ℕ) (st : St IpmiServerSwitch Q)
      → Answers
      → st.own.c ≡ some client
      → (b : Bool) × ((is_server_on ipmi st).0 ≡ ok b) × ((is_server_on ipmi st).1.own ≡ st.own)
  unfolding is_server_on is_server_on_by
  is_server_on_lem client st all e =
      let (response, fine, completed) = all.answers client st.log in
      rw (e, is_server_on, is_server_on_by, fine, completed) (_, refl, refl)

  check_switch_lem :
      (fuel client : ℕ) (st : St IpmiServerSwitch Q)
      → Answers
      → st.own.c ≡ some client
      → ((check_switch ipmi fuel st).0 ≡ ok (some tt))
        × ((check_switch ipmi fuel st).1.own ≡ st.own)
  unfolding check_switch
  check_switch_lem fuel client st all e =
      let (b, fine, same) = is_server_on_lem client st all e in rw (fine, check_switch) (refl, same)

  check_server_known :
      (fuel : ℕ) (node : String) (st : St (Dict IpmiServerSwitch) Q)
      → Answers
      → HasClients st.own
      → contains_key node st.own ≡ true
      → ((check_server ipmi fuel node st).0 ≡ ok (some tt))
        × ((check_server ipmi fuel node st).1.own ≡ st.own)
  unfolding check_server
  check_server_known fuel node st all clients known = elim (Option-cases (lookup node st.own)) [
    | inl e ↦ absurd (let same = contains_key-lookup node st.own in ground (arith, same))
    | inr (sw, e) ↦
        let (client, ec) = lookup-HasClients node st.own sw clients e in
        let (fine, same) =
          check_switch_lem fuel client (record { own = sw; log = st.log }) all ec in
        rw (e, check_server, fine, same) (refl, insert_same node st.own sw e)
  ]

  check_server_absent :
      (fuel : ℕ) (node : String) (st : St (Dict IpmiServerSwitch) Q)
      → contains_key node st.own ≡ false
      → (check_server ipmi fuel node st).0 ≡ panic
  unfolding check_server
  check_server_absent fuel node st h = elim (Option-cases (lookup node st.own)) [
    | inl e ↦ rw (e, check_server) refl
    | inr (sw, e) ↦ absurd (let same = contains_key-lookup node st.own in ground (arith, same))
  ]

  module _ {F : Type 0} where
    check_servers-RoundEnds :
        (fuel : ℕ) (averages : List (NodeInstantCpuUsage F)) (st : St (Dict IpmiServerSwitch) Q)
        → Answers
        → HasClients st.own
        → RoundEnds (all_known st.own averages) (check_servers ipmi fuel averages st).0
    unfolding check_servers
    check_servers-RoundEnds fuel [] st all clients = refl
    check_servers-RoundEnds fuel (v ∷ rest) st all clients =
        elim (Bool-cases (contains_key v.node_name st.own)) [
          | inl known ↦
              let (fine, same) = check_server_known fuel v.node_name st all clients known in
              let more =
                check_servers-RoundEnds fuel rest (check_server ipmi fuel v.node_name st).1 all
                  (rw same clients) in
              rw (known, fine, check_servers) (rw same at more)
          | inr absent ↦
              rw (absent, check_server_absent fuel v.node_name st absent, check_servers) refl
        ]

-- A round of the server on/off strategy, when every switch has a client, each request of the status is
-- completed and Prometheus returns averages: it ends without an error where every measured node has a
-- switch, and else it panics.
pub reconcile-RoundEnds :
    {F Q : Type 0} (env : Env F Q) (ipmi : Ipmi Q) (fuel : ℕ) (st : St (Dict IpmiServerSwitch) Q)
    (averages : List (NodeInstantCpuUsage F))
    → Answers ipmi
    → HasClients st.own
    → (get_avg_cpu_usages env st).0 ≡ ok averages
    → RoundEnds (all_known st.own averages) (reconcile env ipmi fuel st).0
unfolding reconcile check_answer
reconcile-RoundEnds env ipmi fuel st averages all clients e =
    let own = get_avg_cpu_usages-own env st in
    let ends =
      check_servers-RoundEnds ipmi fuel averages (get_avg_cpu_usages env st).1 all
        (rw own clients) in
    rw (e, reconcile, check_answer) (rw own at ends)
