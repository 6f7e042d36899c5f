-- ===== src/Scheduling/ServerOnOff/Asking.antt =====
-- Which calls a round makes: it asks servers and connects to them, and switches none.
use target_exporter.Prelude.{
  ℕ, zero, suc, ◌≡◌, inl, inr, ap, String, Option, none, some, List, [], ◌∷◌, ◌++◌, All, All-append,
  Dict, lookup, Option-cases, append_assoc, append-nil, sym, ◌∙◌, arith,
}
use target_exporter.Outcome.{Outcome, ok, err, panic, and_then_keeps}
use target_exporter.World.{Event, Log, Env, St}
use target_exporter.World.Calls.{Calls}
use target_exporter.Promclient.{NodeInstantCpuUsage, get_avg_cpu_usages}
use target_exporter.Serverswitch.{
  Ipmi, Connection, IpmiServerSwitch, open_connection, close, is_server_on_by, is_server_on,
  retry_conn,
}
use target_exporter.Scheduling.ServerOnOff.{
  retry_server_conn, check_switch, check_server, check_servers, check_answer, reconcile,
}

-- A query, or a call that opens or closes a client or asks for the status.
abbrev pub IsAsking : {Q : Type 0} → Event Q → Type 0
IsAsking (Event.query text) = Unit
IsAsking (Event.ipmi_open client) = Unit
IsAsking (Event.ipmi_close client) = Unit
IsAsking (Event.ipmi_status client) = Unit
IsAsking _ = ⊥

module _ {Q : Type 0} (ipmi : Ipmi Q) (R : Log Q → Type 0)
    (grow : (log : Log Q) (e : Event Q) → IsAsking e → R log → R (log ++ (e ∷ []))) where
  open_connection_keeps :
      {S : Type 0} (c : Connection) (st : St S Q) → R st.log → R (open_connection ipmi c st).1.log
  unfolding open_connection
  open_connection_keeps {S = S} c st r =
      and_then_keeps (λ (s : St S Q). R s.log) (ipmi.new_client c st.log) _ st r
        λ client s h.
          and_then_keeps (λ (s : St S Q). R s.log) (ipmi.open_client client s.log) _ _
            (grow s.log (Event.ipmi_open client) tt h) (λ _ s' h'. h')

  close_keeps : (c : Option ℕ) (st : St IpmiServerSwitch Q) → R st.log → R (close ipmi c st).1.log
  unfolding close
  close_keeps none st r = r
  close_keeps (some client) st r = grow st.log (Event.ipmi_close client) tt r

  retry_conn_keeps : (st : St IpmiServerSwitch Q) → R st.log → R (retry_conn ipmi st).1.log
  unfolding retry_conn
  retry_conn_keeps st r =
      and_then_keeps (λ (s : St IpmiServerSwitch Q). R s.log) (close ipmi st.own.c st).0 _
        (close ipmi st.own.c st).1 (close_keeps st.own.c st r)
        λ _ s h.
          and_then_keeps (λ (s' : St IpmiServerSwitch Q). R s'.log)
            (open_connection ipmi st.own.connection s).0 _
            (open_connection ipmi st.own.connection s).1
            (open_connection_keeps st.own.connection s h) (λ client s' h'. h')

  is_server_on_keeps : (st : St IpmiServerSwitch Q) → R st.log → R (is_server_on ipmi st).1.log
  unfolding is_server_on is_server_on_by
  is_server_on_keeps st r = by_client st.own.c
    where
      by_client : (c : Option ℕ) → R (is_server_on_by ipmi c st).1.log
      by_client none = r
      by_client (some client) =
          and_then_keeps (λ (s : St IpmiServerSwitch Q). R s.log)
            (ipmi.chassis_status client st.log) _ _ (grow st.log (Event.ipmi_status client) tt r)
            (λ _ s h. h)

  retry_server_conn_keeps :
      (fuel : ℕ) (st : St IpmiServerSwitch Q) → R st.log → R (retry_server_conn ipmi fuel st).1.log
  unfolding retry_server_conn
  retry_server_conn_keeps zero st r = r
  retry_server_conn_keeps (suc fuel) st r =
      let h = retry_conn_keeps st r in
      let more = retry_server_conn_keeps fuel (retry_conn ipmi st).1 h in ground (arith, h, more)

  check_switch_keeps :
      (fuel : ℕ) (st : St IpmiServerSwitch Q) → R st.log → R (check_switch ipmi fuel st).1.log
  unfolding check_switch
  check_switch_keeps fuel st r =
      let h = is_server_on_keeps st r in
      let more = retry_server_conn_keeps fuel (is_server_on ipmi st).1 h in ground (arith, h, more)

  check_server_keeps :
      (fuel : ℕ) (node : String) (st : St (Dict IpmiServerSwitch) Q)
      → R st.log
      → R (check_server ipmi fuel node st).1.log
  unfolding check_server
  check_server_keeps fuel node st r = elim (Option-cases (lookup node st.own)) [
    | inl e ↦ rw (e, check_server) r
    | inr (sw, e) ↦
        rw (e, check_server) (check_switch_keeps fuel (record { own = sw; log = st.log }) r)
  ]

  check_servers_keeps :
      {F : Type 0} (fuel : ℕ) (averages : List (NodeInstantCpuUsage F))
      (st : St (Dict IpmiServerSwitch) Q)
      → R st.log
      → R (check_servers ipmi fuel averages st).1.log
  unfolding check_servers
  check_servers_keeps fuel [] st r = r
  check_servers_keeps fuel (v ∷ rest) st r =
      let h = check_server_keeps fuel v.node_name st r in
      let more = check_servers_keeps fuel rest (check_server ipmi fuel v.node_name st).1 h in
      ground (arith, h, more)

  reconcile_keeps :
      {F : Type 0} (env : Env F Q) (fuel : ℕ) (st : St (Dict IpmiServerSwitch) Q)
      → R st.log
      → R (reconcile env ipmi fuel st).1.log
  unfolding reconcile get_avg_cpu_usages check_answer
  reconcile_keeps {F} env fuel st r =
      by_answer (get_avg_cpu_usages env st).0 (get_avg_cpu_usages env st).1 (
        and_then_keeps (λ (s : St (Dict IpmiServerSwitch) Q). R s.log) (env.samples st.log) _ _
          (grow st.log (Event.query "avg_over_time(node_cpu_utilization[5m])") tt r) (λ _ s h. h))
    where
      by_answer :
          (o : Outcome (List (NodeInstantCpuUsage F))) (st' : St (Dict IpmiServerSwitch) Q)
          → R st'.log
          → R (check_answer ipmi fuel o st').1.log
      by_answer (ok averages) st' h = check_servers_keeps fuel averages st' h
      by_answer (err e) st' h = h
      by_answer panic st' h = h

-- A round of the server on/off strategy makes no calls but queries of Prometheus and calls that open
-- or close IPMI clients or ask for the status: it switches no server off, however the services answer,
-- and also when the fuel runs out.
pub reconcile-Asking :
    {F Q : Type 0} (env : Env F Q) (ipmi : Ipmi Q) (fuel : ℕ)
    → Calls IsAsking (reconcile env ipmi fuel)
reconcile-Asking {F} {Q} env ipmi fuel = record {
  calls = λ st.
      reconcile_keeps ipmi (λ log. (new : Log Q) × (log ≡ st.log ++ new) × All IsAsking new)
        (λ log e asking (new, same, all). (
          new ++ (e ∷ []),
          ap (λ l. l ++ (e ∷ [])) same ∙ append_assoc st.log new (e ∷ []),
          All-append IsAsking new (e ∷ []) all (asking, tt),
        ))
        env fuel st ([], sym (append-nil st.log), tt);
}
