-- ===== src/Startup/Checked.antt =====
-- What has been checked when the program serves.
use target_exporter.Prelude.{
  ◌≡◌, refl, sym, subst, ◌∙◌, ap, append-nil, append_assoc, inl, inr, Bool, true, false, String,
  List, [], ◌∷◌, ◌++◌, Dict, keys, All, if◌then◌else◌,
}
use target_exporter.Outcome.{
  Action, Outcome, ok, err, panic, and_then, ◌>>=◌, ◌>>◌, Outcome-cases, lift, pure,
}
use target_exporter.World.{Sample, Event, Log, Env, St, call}
use target_exporter.World.Calls.{All-weaker}
use target_exporter.Kubeclient.{is_node_name_valid}
use target_exporter.Startup.{check_config}
use target_exporter.Startup.Main.{Config, Libraries, refuse, init_prom_client, init_checked}

module _ {F Q : Type 0} (env : Env F Q) where
  -- Kubernetes has been asked for the node, and has returned it.
  abbrev pub IsAcknowledged : Log Q → String → Type 0
  IsAcknowledged log node =
      (before after : Log Q) × (log ≡ before ++ (Event.get_node node ∷ after))
      × (env.acknowledge before ≡ ok tt)

  pub later :
      (log more : Log Q) (node : String)
      → IsAcknowledged log node
      → IsAcknowledged (log ++ more) node
  later log more node (before, after, e, done) =
      (before, after ++ more, ap (λ l. l ++ more) e ∙ append_assoc before _ more, done)

  -- All names are checked, and the log only grows.
  abbrev Checks : List String → Log Q → Log Q → Type 0
  Checks names log log' = (new : Log Q) × (log' ≡ log ++ new) × All (IsAcknowledged log') names

  -- The answer about one name, and the names that are not valid among the others.
  names_after :
      {S : Type 0} (node : String) (is_valid : Bool) (others : Outcome (List String)) (st : St S Q)
      → (and_then others (λ names. pure (if is_valid then names else node ∷ names)) st).0 ≡ ok []
      → (is_valid ≡ true)
        × (others ≡ ok [])
        × ((and_then others (λ names. pure (if is_valid then names else node ∷ names)) st).1 ≡ st)
  names_after node true (ok names) st e = (refl, e, refl)
  names_after node false (ok names) st e = cc
  names_after node is_valid (err t) st e = cc
  names_after node is_valid panic st e = cc

  is_node_name_valid_lem :
      {S : Type 0} (node : String) (st : St S Q)
      → ((is_node_name_valid env node st).1.log ≡ st.log ++ (Event.get_node node ∷ []))
        × ((is_node_name_valid env node st).0 ≡ ok true → env.acknowledge st.log ≡ ok tt)
  unfolding is_node_name_valid
  is_node_name_valid_lem node st = elim (Outcome-cases (env.acknowledge st.log)) [
    | inl (done, o) ↦ rw (o, is_node_name_valid) (refl, λ e. refl)
    | inr (inl (t, o)) ↦ rw (o, is_node_name_valid) (refl, λ e. cc)
    | inr (inr o) ↦ rw (o, is_node_name_valid) (refl, λ e. cc)
  ]

  module _ {S V : Type 0} where
    abbrev rest_of : String → Dict V → Bool → Action (St S Q) (List String)
    rest_of node rest is_valid =
        check_config env rest >>= λ names. pure (if is_valid then names else node ∷ names)

    name_after :
        (node : String) (rest : Dict V) (valid : Outcome Bool) (st : St S Q)
        → (and_then valid (rest_of node rest) st).0 ≡ ok []
        → (valid ≡ ok true)
          × ((check_config env rest st).0 ≡ ok [])
          × ((and_then valid (rest_of node rest) st).1 ≡ (check_config env rest st).1)
    name_after node rest (ok b) st e =
        let (is, others, same) = names_after node b (check_config env rest st).0 _ e in
        (ap ok is, others, same)
    name_after node rest (err t) st e = cc
    name_after node rest panic st e = cc

    check_config-Checks :
        (targets : Dict V) (st : St S Q)
        → (check_config env targets st).0 ≡ ok []
        → Checks (keys targets) st.log (check_config env targets st).1.log
    unfolding check_config
    check_config-Checks [] st e = ([], sym (append-nil st.log), tt)
    check_config-Checks ((node, x) ∷ rest) st e =
        let (asked, accepted) = is_node_name_valid_lem node st in
        let st1 = (is_node_name_valid env node st).1 in
        let (valid, others, same) = name_after node rest (is_node_name_valid env node st).0 st1 e in
        let (new, more, all) = check_config-Checks rest st1 others in
        let whole = more ∙ (ap (λ l. l ++ new) asked ∙ append_assoc st.log _ new) in
        subst (Checks (node ∷ keys rest) st.log) (ap (λ s. s.log) (sym same))
          (Event.get_node node ∷ new, whole, ((st.log, new, whole, accepted valid), all))

module _ {F Q : Type 0} (env : Env F Q) (libraries : Libraries F) where
  abbrev Own : Type 0
  Own = Unit {0}

  -- The log only grows, and the configuration stays.
  abbrev Extends : Config F → Config F → Log Q → Log Q → Type 0
  Extends config c log log' = (c ≡ config) × ((new : Log Q) × (log' ≡ log ++ new))

  answered_up :
      (config c : Config F) (answer : Outcome (List Sample)) (st : St Own Q)
      → (and_then answer (λ _. pure config) st).0 ≡ ok c
      → (c ≡ config) × ((and_then answer (λ _. pure config) st).1 ≡ st)
  answered_up config c (ok samples) st e = (cc, refl)
  answered_up config c (err t) st e = cc
  answered_up config c panic st e = cc

  abbrev ask_up : Config F → Action (St Own Q) (Config F)
  ask_up config = call (Event.query "up") env.samples >>= λ _. pure config

  ask_up-Extends :
      (config c : Config F) (client : Outcome (Unit {0})) (st : St Own Q)
      → (and_then client (λ _. ask_up config) st).0 ≡ ok c
      → Extends config c st.log (and_then client (λ _. ask_up config) st).1.log
  ask_up-Extends config c (ok u) st e =
      let (same, stay) = answered_up config c (env.samples st.log) _ e in
      (same, (Event.query "up" ∷ [], ap (λ s. s.log) stay))
  ask_up-Extends config c (err t) st e = cc
  ask_up-Extends config c panic st e = cc

  init_prom_client-Extends :
      (config c : Config F) (st : St Own Q)
      → (init_prom_client env libraries config st).0 ≡ ok c
      → Extends config c st.log (init_prom_client env libraries config st).1.log
  unfolding init_prom_client
  init_prom_client-Extends config c st e = ask_up-Extends config c libraries.prom_client st e

  -- What init has when the names are checked.
  after_names :
      (config c : Config F) (names : Outcome (List String)) (st : St Own Q)
      → (and_then names
          (λ ns. refuse env libraries ns >> init_prom_client env libraries config)
          st).0
        ≡ ok c
      → (names ≡ ok [])
        × Extends config c st.log
            (and_then names
              (λ ns. refuse env libraries ns >> init_prom_client env libraries config)
              st).1.log
  after_names config c (ok []) st e = (refl, init_prom_client-Extends config c st e)
  after_names config c (ok (n ∷ ns)) st e = cc
  after_names config c (err t) st e = cc
  after_names config c panic st e = cc

  init_checked-IsAcknowledged :
      (config c : Config F) (st : St Own Q)
      → (init_checked env libraries config st).0 ≡ ok c
      → (c ≡ config)
        × All
            (IsAcknowledged env (init_checked env libraries config st).1.log)
            (keys config.targets)
  unfolding init_checked
  init_checked-IsAcknowledged config c st e =
      let checked = check_config env config.targets st in
      let (valid, (same, (new, grown))) = after_names config c checked.0 checked.1 e in
      let (old, before, all) = check_config-Checks env config.targets st valid in
      (same, rw grown (All-weaker _ (λ node h. later env checked.1.log new node h) all))

  -- init returns the configuration of the file only if Kubernetes has returned each configured node.
  pub file-IsAcknowledged :
      (file : Outcome (Config F)) (client : Outcome (Unit {0})) (c : Config F) (st : St Own Q)
      → (and_then file (λ config. lift client >> init_checked env libraries config) st).0 ≡ ok c
      → (file ≡ ok c)
        × All
            (IsAcknowledged env
              (and_then file (λ config. lift client >> init_checked env libraries config) st).1.log)
            (keys c.targets)
  file-IsAcknowledged (ok config) (ok u) c st e =
      let (same, all) = init_checked-IsAcknowledged config c st e in
      (
        ap ok (sym same),
        subst
            (λ x.
              All (IsAcknowledged env (init_checked env libraries config st).1.log)
                (keys x.targets))
            (sym same) all,
      )
  file-IsAcknowledged (ok config) (err t) c st e = cc
  file-IsAcknowledged (ok config) panic c st e = cc
  file-IsAcknowledged (err t) client c st e = cc
  file-IsAcknowledged panic client c st e = cc
