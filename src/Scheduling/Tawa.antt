-- ===== src/Scheduling/Tawa.antt =====
-- pkg/scheduling/tawa.go: the strategy that the orchestrator asks for; its rounds do nothing.
use target_exporter.Outcome.{Action, pure}

unfoldable pub reconcile : {S : Type 0} → Action S (Unit {0})
reconcile = pure tt
