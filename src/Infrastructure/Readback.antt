-- ===== src/Infrastructure/Readback.antt =====
-- A GET of the targets after a POST.
use target_exporter.Prelude.{
  ◌≡◌, refl, ap, ◌∙◌, true, false, String, none, some, [], ◌∷◌, Dict, lookup, insert, contains_key,
  HasUniqueKeys, map, eq_iff, arith, insert-HasUniqueKeys,
}
use target_exporter.Outcome.{Outcome, ok, err, panic, and_then, for_each, pure}
use target_exporter.Scheduling.{Target, get_target}
use target_exporter.Infrastructure.{Body, reply}
use target_exporter.Infrastructure.TargetHandlers.{
  check_missing_nodes, set_node_target, get_targets_response, post_targets_request,
}
use target_exporter.Infrastructure.Targets.{
  AllKnown, lookup_of_absent, check_missing_nodes-AllKnown, insert-AllKnown, lookup_of_contains_key,
  set_node_target_lem, for_each_step, set_targets_known,
}

and_then-pure :
    {A S : Type 0} (o : Outcome (Unit {0})) (a : A) (s : S) → (and_then o (λ _. pure a) s).1 ≡ s
and_then-pure (ok _) a s = refl
and_then-pure (err e) a s = refl
and_then-pure panic a s = refl

module _ {F : Type 0} where
  -- The value that a payload names for the node, or the node's target.
  abbrev updated : Dict F → String → Target F → F
  updated payload node t = elim (lookup node payload) [ none ↦ get_target t | some x ↦ x ]

  abbrev pub all_updated : Dict F → Dict (Target F) → Dict F
  all_updated payload m = map (λ (node, t). (node, updated payload node t)) m

  -- An entry for a node that is not in the map makes no difference.
  all_updated-absent :
      (j : String) (x : F) (rest : Dict F) (m : Dict (Target F))
      → contains_key j m ≡ false
      → all_updated ((j, x) ∷ rest) m ≡ all_updated rest m
  all_updated-absent j x rest [] h = refl
  all_updated-absent j x rest ((k, t) ∷ m) h =
      ground (arith, eq_iff j k, eq_iff k j, all_updated-absent j x rest m)

  all_updated-insert :
      (j : String) (x : F) (rest : Dict F) (m : Dict (Target F))
      → lookup j rest ≡ none
      → contains_key j m ≡ true
      → HasUniqueKeys m
      → all_updated rest (insert j (record { target = x; gauge = x }) m)
        ≡ all_updated ((j, x) ∷ rest) m
  all_updated-insert j x rest [] a h u = cc
  all_updated-insert j x rest ((k, t) ∷ m) a h u =
      ground (
        arith,
        eq_iff j k,
        eq_iff k j,
        all_updated-insert j x rest m,
        all_updated-absent j x rest m,
      )

  abbrev all_targets : Dict (Target F) → Dict F
  all_targets m = map (λ (node, t). (node, get_target t)) m

  all_updated-nil : (m : Dict (Target F)) → all_targets m ≡ all_updated [] m
  all_updated-nil [] = refl
  all_updated-nil ((k, t) ∷ m) = ground (arith, all_updated-nil m)

  for_each-all_updated :
      (payload : Dict F) (m : Dict (Target F))
      → HasUniqueKeys payload
      → HasUniqueKeys m
      → AllKnown m payload
      → all_targets (for_each payload set_node_target m).1 ≡ all_updated payload m
  for_each-all_updated [] m u um h = all_updated-nil m
  for_each-all_updated ((j, x) ∷ rest) m u um h =
      let (t, e) = lookup_of_contains_key j m h.0 in
      let n : Target F = record { target = x; gauge = x } in
      let m' = insert j n m in
      ap (λ r. all_targets r.1) (for_each_step (j, x) rest m m' (set_node_target_lem j x m t e))
      ∙ (for_each-all_updated rest m' u.1 (insert-HasUniqueKeys j n m um)
            (insert-AllKnown j n m rest h.1)
          ∙ all_updated-insert j x rest m (lookup_of_absent j rest u.0) h.0 um)

  -- A GET after a POST of targets that names only known nodes, each once, lists every node once, in
  -- the order of before, with the value that the payload has for it, and with its old target where
  -- the payload does not name it.
  pub post_targets_request-get :
      (payload : Dict F) (m : Dict (Target F))
      → HasUniqueKeys payload
      → HasUniqueKeys m
      → check_missing_nodes m payload ≡ []
      → get_targets_response (post_targets_request (ok payload) m).1
        ≡ record { status = 200; body = Body.targets_list (all_updated payload m) }
  unfolding get_targets_response post_targets_request
  post_targets_request-get payload m u um e =
      ap (λ l. record { status = 200; body = Body.targets_list l })
        (ap (λ r. all_targets r.1) (set_targets_known payload m e)
          ∙ (ap all_targets (
                and_then-pure (for_each payload set_node_target m).0 (reply 200 Body.success)
                  (for_each payload set_node_target m).1)
              ∙ for_each-all_updated payload m u um (check_missing_nodes-AllKnown m payload e)))
