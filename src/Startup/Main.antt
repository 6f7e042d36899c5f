-- ===== src/Startup/Main.antt =====
-- The functions `init` and `main` of main.go up to the wait for a signal, with the configuration of
-- pkg/infrastructure/exporter.go. What the libraries do before the first call is an argument: reading
-- and parsing the configuration file, and building the clients. An error is `logger.Fatal`, which
-- ends the process.
use target_exporter.Prelude.{String, List, [], ◌∷◌, Dict}
use target_exporter.Float.{Float64}
use target_exporter.Outcome.{Outcome, Action, ◌>>=◌, ◌>>◌, pure, fail, lift}
use target_exporter.World.{Event, Env, St, call, observe}
use target_exporter.Serverswitch.{Ipmi}
use target_exporter.Startup.{check_config, init_server_on_off}
use target_exporter.System.{System, new_system}

pub record Config (F : Type 0) : Type 0 where
  pub target_metric_name : String
  pub targets : Dict F
  pub pyzhm_node_mappings : Dict String
  pub bmc_node_mappings : Dict String
  pub bmc_username : String
  pub bmc_password : String
  pub setpoints : List F

pub record Libraries (F : Type 0) : Type 0 where
  pub config_file : Outcome (Config F)  -- os.Stat, os.ReadFile and yaml.Unmarshal
  pub kube_client : Outcome (Unit {0})  -- BuildConfigFromFlags and NewForConfig
  pub prom_client : Outcome (Unit {0})  -- promapi.NewClient

module _ {F Q : Type 0} (env : Env F Q) (libraries : Libraries F) where
  -- The end of checkConfig.
  abbrev pub refuse : List String → Action (St (Unit {0}) Q) (Unit {0})
  refuse [] = pure tt
  refuse (node ∷ invalid_names) = fail "The following node names are not valid"

  -- initPromClient, and the end of init.
  unfoldable pub init_prom_client : Config F → Action (St (Unit {0}) Q) (Config F)
  init_prom_client config = do
    lift libraries.prom_client
    call (Event.query "up") env.samples
    pure config

  unfoldable pub init_checked : Config F → Action (St (Unit {0}) Q) (Config F)
  init_checked config = do
    invalid_names ← check_config env config.targets
    refuse invalid_names
    init_prom_client config

  unfoldable pub init : Action (St (Unit {0}) Q) (Config F)
  init = do config ← lift libraries.config_file; lift libraries.kube_client; init_checked config

module _ {F Q : Type 0} ⦃f : Float64 F⦄ (env : Env F Q) (ipmi : Ipmi Q)
    (libraries : Libraries F) where
  -- StartMetrics and NewOrchestrator make no calls; the program's state is as they leave it.
  unfoldable pub main : Action (St (Unit {0}) Q) (System F Q)
  main = do
    config ← init env libraries
    switches ←
        init_server_on_off ipmi config.bmc_username config.bmc_password config.bmc_node_mappings []
    now ← observe env.now
    pure (new_system config.targets switches now)
