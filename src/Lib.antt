-- ===== src/Lib.antt =====
-- The target exporter: a service that exports CPU targets of cluster nodes to Prometheus and steers
-- the nodes towards them with Kubernetes workloads.
--
-- The parts and how they interact. Handlers of an HTTP API (pkg/infrastructure) change the targets and
-- ask the orchestrator (pkg/scheduling) to add workloads. Strategies run in goroutines of their own:
-- each has a loop that calls `Reconcile` while the strategy is started. The strategies and handlers
-- reach the cluster by a Kubernetes client (pkg/kubeclient) and read measurements by a Prometheus
-- client (pkg/promclient); PyZHM predicts where a workload should run.
--
-- The files.
--   Prelude            shared names, lists and maps, Boolean tests, signed integers.
--   Float              float64 as an interface, with laws of its comparisons.
--   Outcome            results, errors and panics of Go code, as an effect on a state.
--   World              the environment: what the services answer, and the events that they see;
--                      World.Calls has the combinators for theorems on which calls are made.
--   Promclient         pkg/promclient/promclient.go: the queries and the loops over their samples.
--   Pyzhm              pkg/pyzhm/pyzhm.go.
--   Serverswitch       pkg/serverswitch/ipmi.go: the switch of a server.
--   Kubeclient         pkg/kubeclient/kubeclient.go; Kubeclient.Builder is pkg/kubeclient/job.go.
--   Scheduling         Target and Schedulable of pkg/scheduling/orchestration.go, and the modules
--     Orchestrator         AddWorkload and CheckStartJobs of orchestration.go; Forwarding has
--                          NewOrchestrator and the methods that start and stop strategies,
--     Strategy             strategy.go: mutex, channel and goroutine as a step relation,
--     SchedulableStrategy  schedulable.go,
--     ReduceTargets        reducetarget.go,
--     SelfDriving          selfdriving.go (Delta: getViolatingPodsDelta, Round: Reconcile),
--     AutomaticJobSpawn    spawn.go,
--     ServerOnOff          serveronoff.go,
--     Tawa                 tawa.go.
--   Infrastructure     the handlers of pkg/infrastructure/routes.go; TargetHandlers has those for
--                      targets, with checkMissingNodes of exporter.go, and SwitchHandlers those that
--                      switch a strategy on or off; Exporter has StartMetrics of exporter.go and the
--                      runs of the parts that share the maps of targets and flags; Routes is the
--                      table of routes of StartApi, and Creation bounds what two handlers create.
--   Middlewares        pkg/middlewares/middlewares.go.
--   Startup            main.go: checkConfig, initServerOnOff and initOrchestrator; Main has `main`.
--   System             all parts after main.go has started them, with each handler and each round on
--                      the state of all; Running has the steps of the program, requests, rounds and
--                      the goroutine of CheckStartJobs, and Serving the answer to an HTTP request,
--                      from the path to the handler.
--   Examples           a small cluster on which the theorems are applied.
-- A function of the source keeps its name in snake case, and a loop inside a function is a function
-- of its own below it. A method's receiver is the state, or the part of it that it changes.
--
-- State and calls. An operation takes the component's own fields and the list of calls that have
-- left the process, and returns an outcome (a value, an error, or a panic) with both as they are
-- then, so a theorem can speak of what was done before an error. A service's answer is a function
-- of the calls so far, given by the record `Env`; nothing is assumed of the answers but what a
-- theorem names as a hypothesis. Maps are association lists, and a range over a map goes in the
-- order of the list; the theorems hold for every order. Where the source takes any one key of a
-- map, the model takes the first of the list, at each call the same. Numbers: int is an integer,
-- int64 products wrap, float64 is `Float64`, which leaves the arithmetic open, with the laws
-- `IsOrdered` where a theorem compares. Loops are structural recursions on the list that the source
-- ranges over, but for retryServerConn, which has no bound and is given fuel:
-- Scheduling.ServerOnOff.Retrying says how much is enough, and in System a round that runs out of
-- it is no step (`IsOver`). A round of a strategy and a handler's change of a map are steps that do
-- not overlap; the parts of Start and Stop do, as Scheduling.Strategy has them, and System counts
-- its steps with the others. A PUT's response is written when its call of Start or Stop returns,
-- which it need not do (`Answer`), and a round of a strategy need not return either. The list of
-- calls of System is empty when it starts to serve, so its theorems do not count the calls of
-- main.go.
--
-- Not modelled: logging, warnings of Prometheus, the pauses between rounds, data races on the maps,
-- flags and the reading of configuration files, the construction of the libraries' clients, the
-- start and shutdown of the servers, requests between StartApi and SetOrchestrator of main.go, the
-- gauges with constant values, and the charts and manifests. All but the requests are I/O or
-- constants. The router and the recovery of gin are an argument (`Gin`), as is what BindJSON makes of
-- a body. GetTestScenario of pyzhm.go is used by tests only.
pub mod Prelude
pub mod Float
pub mod Outcome
pub mod World
pub mod Promclient
pub mod Pyzhm
pub mod Serverswitch
pub mod Startup
pub mod Middlewares
pub mod System
pub mod Kubeclient
pub mod Scheduling
pub mod Infrastructure
pub mod Examples
