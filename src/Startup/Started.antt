-- ===== src/Startup/Started.antt =====
-- What has happened when the program serves.
use target_exporter.Prelude.{
  ◌≡◌, refl, subst, ◌∙◌, ap, inl, inr, String, [], ◌∷◌, ◌++◌, Dict, keys, All, insert,
}
use target_exporter.Float.{Float64}
use target_exporter.Outcome.{Action, Outcome, ok, err, panic, and_then, ◌>>=◌, Outcome-cases, pure}
use target_exporter.World.{Event, Log, Env, St, observe}
use target_exporter.World.Calls.{
  Calls, call-Calls, stay-Calls, lift-Calls, >>=-Calls, later-Calls, All-weaker,
}
use target_exporter.Serverswitch.{Ipmi, IpmiServerSwitch, open_connection, new_ipmi_server_switch}
use target_exporter.Startup.{init_server_on_off}
use target_exporter.Startup.Main.{Config, Libraries, init, main}
use target_exporter.Startup.Checked.{IsAcknowledged, later, file-IsAcknowledged}
use target_exporter.System.{System, new_system}
use target_exporter.System.Powers.{Kind, kind}

module _ {S Q : Type 0} (ipmi : Ipmi Q) (P : Event Q → Type 0)
    (connect : (e : Event Q) → kind e ≡ Kind.connect → P e) where
  new_ipmi_server_switch-Calls :
      (endpoint username password : String)
      → Calls {S = S} P (new_ipmi_server_switch ipmi endpoint username password)
  unfolding new_ipmi_server_switch open_connection
  new_ipmi_server_switch-Calls endpoint username password =
      >>=-Calls P _ _
        (>>=-Calls P _ _ (stay-Calls P _ (λ st. refl)) λ client.
          >>=-Calls P _ _
            (call-Calls P (Event.ipmi_open client) (ipmi.open_client client) (connect _ refl))
            (λ u. lift-Calls P (ok client)))
        (λ client. lift-Calls P (ok _))

  init_server_on_off-Calls :
      (username password : String) (nodes : Dict String) (switches : Dict IpmiServerSwitch)
      → Calls {S = S} P (init_server_on_off ipmi username password nodes switches)
  unfolding init_server_on_off
  init_server_on_off-Calls username password [] switches = stay-Calls P _ (λ st. refl)
  init_server_on_off-Calls username password ((node, endpoint) ∷ rest) switches = record {
    calls = λ st.
        let made = new_ipmi_server_switch ipmi endpoint username password st in
        let (new, same, fine) =
          (new_ipmi_server_switch-Calls endpoint username password).calls st in
        elim (Outcome-cases made.0) [
          | inl (sswitch, o) ↦
              rw (o, init_server_on_off)
                (later-Calls P
                  (init_server_on_off ipmi username password rest (insert node sswitch switches))
                  st.log new made.1 same fine
                  (init_server_on_off-Calls username password rest (insert node sswitch switches)))
          | inr (inl (t, o)) ↦
              rw (o, init_server_on_off)
                (later-Calls P (init_server_on_off ipmi username password rest switches) st.log new
                  made.1 same fine (init_server_on_off-Calls username password rest switches))
          | inr (inr o) ↦ rw (o, init_server_on_off) (new, same, fine)
        ];
  }

module _ {F Q : Type 0} ⦃f : Float64 F⦄ (env : Env F Q) (ipmi : Ipmi Q)
    (libraries : Libraries F) where
  abbrev Own : Type 0
  Own = Unit {0}

  after_init :
      (config : Config F) (switches : Outcome (Dict IpmiServerSwitch)) (st : St Own Q)
      (s : System F Q)
      → (and_then switches
          (λ sw. observe env.now >>= λ now. pure (new_system config.targets sw now))
          st).0
        ≡ ok s
      → (s ≡ new_system config.targets s.switches s.spawn.reset_time)
        × ((and_then switches
              (λ sw.
                observe env.now >>= λ now. pure (new_system {F = F} {Q = Q} config.targets sw now))
              st).1
            ≡ st)
  unfolding new_system
  after_init config (ok sw) st s e =
      let same : new_system config.targets sw (env.now st.log) ≡ s = cc in
      (subst (λ x. x ≡ new_system config.targets x.switches x.spawn.reset_time) same refl, refl)
  after_init config (err t) st s e = cc
  after_init config panic st s e = cc

  abbrev start_with : Config F → Action (St Own Q) (System F Q)
  start_with config =
      init_server_on_off ipmi config.bmc_username config.bmc_password config.bmc_node_mappings []
      >>= λ switches. observe env.now >>= λ now. pure (new_system config.targets switches now)

  started_with :
      (config : Outcome (Config F)) (st : St Own Q) (s : System F Q)
      → (and_then config start_with st).0 ≡ ok s
      → (c : Config F) × (config ≡ ok c)
        × (s ≡ new_system c.targets s.switches s.spawn.reset_time)
        × ((new : Log Q) × ((and_then config start_with st).1.log ≡ st.log ++ new))
  started_with (ok c) st s e =
      let made = init_server_on_off ipmi c.bmc_username c.bmc_password c.bmc_node_mappings [] st in
      let (is, stay) = after_init c made.0 made.1 s e in
      let (new, grown, fine) =
        (init_server_on_off-Calls ipmi (λ _. Unit {0}) (λ e h. tt) c.bmc_username c.bmc_password
            c.bmc_node_mappings []).calls
          st in
      (c, refl, is, (new, ap (λ t. t.log) stay ∙ grown))
  started_with (err t) st s e = cc
  started_with panic st s e = cc

  -- If the program comes to serve, it has read a configuration and has got each configured node from
  -- Kubernetes: otherwise it has ended. It then serves in the first state of the system with the
  -- configured targets.
  pub main-IsAcknowledged :
      (st : St Own Q) (s : System F Q)
      → (main env ipmi libraries st).0 ≡ ok s
      → (config : Config F) × (libraries.config_file ≡ ok config)
        × (s ≡ new_system config.targets s.switches s.spawn.reset_time)
        × All (IsAcknowledged env (main env ipmi libraries st).1.log) (keys config.targets)
  unfolding main init
  main-IsAcknowledged st s e =
      let began = init env libraries st in
      let (c, read, is, (new, grown)) = started_with began.0 began.1 s e in
      let (file, all) =
        file-IsAcknowledged env libraries libraries.config_file libraries.kube_client c st read in
      (c, file, is, rw grown (All-weaker _ (λ node h. later env began.1.log new node h) all))
