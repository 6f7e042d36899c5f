-- ===== src/Infrastructure/TargetHandlers.antt =====
-- The handlers for targets of pkg/infrastructure/routes.go, and checkMissingNodes of exporter.go.
use target_exporter.Prelude.{
  String, Option, none, some, List, [], ◌∷◌, Dict, lookup, insert, contains_key, map, if◌then◌else◌,
}
use target_exporter.Outcome.{Outcome, ok, panic, Action, pure, lift, for_each, ◌>>◌}
use target_exporter.Scheduling.{Target, set_target, get_target}
use target_exporter.Infrastructure.{Response, Body, reply, answering}

-- checkMissingNodes of exporter.go.
unfoldable pub check_missing_nodes : {V W : Type 0} → Dict V → Dict W → List String
check_missing_nodes targets [] = []
check_missing_nodes targets ((node, x) ∷ rest) =
    let missing = check_missing_nodes targets rest in
    if contains_key node targets then missing else node ∷ missing

module _ {F : Type 0} where
  unfoldable pub get_targets_response : Dict (Target F) → Response F
  get_targets_response targets = record {
    status = 200;
    body = Body.targets_list (map (λ (node, t). (node, get_target t)) targets);
  }

  -- `t.Targets()[node].Set(target)`
  unfoldable pub set_node_target : String × F → Action (Dict (Target F)) (Unit {0})
  set_node_target (node, x) targets = elim (lookup node targets) [
    | none ↦ (panic, targets)
    | some t ↦ (ok tt, insert node (set_target x t) targets)
  ]

  unfoldable pub set_targets : Dict F → Action (Dict (Target F)) (Option (Response F))
  set_targets payload targets = elim (check_missing_nodes targets payload) [
    | [] ↦ (for_each payload set_node_target >> pure (reply 200 Body.success)) targets
    | node ∷ missing ↦ (ok (reply 400 (Body.nodes_missing (node ∷ missing))), targets)
  ]

  unfoldable pub post_targets_request :
      Outcome (Dict F) → Action (Dict (Target F)) (Option (Response F))
  post_targets_request request =
      answering (lift request) (λ e. reply 400 (Body.error e)) set_targets
