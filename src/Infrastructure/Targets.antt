-- ===== src/Infrastructure/Targets.antt =====
-- What a POST of targets does.
use target_exporter.Prelude.{
  HasUniqueKeys, ◌≡◌, ◌≢◌, ◌∙◌, sym, not, keep, keys, In, refl, inl, inr, Bool-cases, Bool, true,
  false, String, Option, none, some, List, [], ◌∷◌, Dict, lookup, insert, contains_key,
  lookup-insert, contains_key-insert, eq_iff, arith, All, ◌==◌,
}
use target_exporter.Outcome.{Outcome, ok, err, panic, and_then, for_each, pure}
use target_exporter.Scheduling.{Target, set_target}
use target_exporter.Infrastructure.{Body, reply}
use target_exporter.Infrastructure.TargetHandlers.{
  check_missing_nodes, set_node_target, set_targets, post_targets_request,
}

keep-In :
    (p : String → Bool) (k : String) (ks : List String) → In k ks → p k ≡ true → keep p ks ≢ []
keep-In p k [] h t = absurd h
keep-In p k (j ∷ ks) (inl e) t = ground arith
keep-In p k (j ∷ ks) (inr h) t = ground (arith, keep-In p k ks h)

module _ {F : Type 0} where
  -- The node's target after the payload: with its gauge at the new value where the payload names the
  -- node, and else as before.
  abbrev pub retargeted : String → Dict F → Option (Target F) → Option (Target F)
  retargeted node payload none = none
  retargeted node payload (some t) = elim (lookup node payload) [
    | none ↦ some t
    | some x ↦ some (record { target = x; gauge = x })
  ]

  abbrev pub AllKnown : Dict (Target F) → Dict F → Type 0
  AllKnown m payload = All (λ e. contains_key e.0 m ≡ true) payload

  pub check_missing_nodes-AllKnown :
      (m : Dict (Target F)) (payload : Dict F)
      → check_missing_nodes m payload ≡ []
      → AllKnown m payload
  unfolding check_missing_nodes
  check_missing_nodes-AllKnown m [] h = tt
  check_missing_nodes-AllKnown m ((node, x) ∷ rest) h =
      ground (arith, check_missing_nodes-AllKnown m rest)

  pub insert-AllKnown :
      (node : String) (t : Target F) (m : Dict (Target F)) (payload : Dict F)
      → AllKnown m payload
      → AllKnown (insert node t m) payload
  insert-AllKnown node t m [] h = tt
  insert-AllKnown node t m ((k, x) ∷ rest) h =
      ground (arith, contains_key-insert node k t m, insert-AllKnown node t m rest h.1)

  pub lookup_of_contains_key :
      (k : String) (m : Dict (Target F))
      → contains_key k m ≡ true
      → (t : Target F) × (lookup k m ≡ some t)
  lookup_of_contains_key k [] h = cc
  lookup_of_contains_key k ((j, t) ∷ m) h = elim (Bool-cases (j == k)) [
    | inl e ↦ (t, rw e refl)
    | inr e ↦ let (u, r) = lookup_of_contains_key k m (rw e at h) in (u, rw e r)
  ]

  pub lookup_of_absent : (k : String) (m : Dict F) → contains_key k m ≡ false → lookup k m ≡ none
  lookup_of_absent k [] h = refl
  lookup_of_absent k ((j, t) ∷ m) h = ground (arith, lookup_of_absent k m)

  pub set_node_target-none :
      (k : String) (x : F) (m : Dict (Target F))
      → lookup k m ≡ none
      → set_node_target (k, x) m ≡ (panic, m)
  unfolding set_node_target
  set_node_target-none k x m e = rw (e, set_node_target) refl

  pub set_node_target_lem :
      (k : String) (x : F) (m : Dict (Target F)) (t : Target F)
      → lookup k m ≡ some t
      → set_node_target (k, x) m ≡ (ok tt, insert k (record { target = x; gauge = x }) m)
  unfolding set_node_target set_target
  set_node_target_lem k x m t e = rw (e, set_node_target) refl

  retargeted_step :
      (k j : String) (x : F) (rest : Dict F) (m : Dict (Target F)) (t : Target F)
      → lookup j m ≡ some t
      → contains_key j rest ≡ false
      → retargeted k rest (lookup k (insert j (record { target = x; gauge = x }) m))
        ≡ retargeted k ((j, x) ∷ rest) (lookup k m)
  retargeted_step k j x rest m t e a = ground (
    arith,
    eq_iff j k,
    lookup-insert j k (record { target = x; gauge = x }) m,
    lookup_of_absent j rest a,
  )

  pub for_each_step :
      (e : String × F) (rest : Dict F) (m m' : Dict (Target F))
      → set_node_target e m ≡ (ok tt, m')
      → for_each (e ∷ rest) set_node_target m ≡ for_each rest set_node_target m'
  for_each_step e rest m m' h = ground arith

  abbrev IsRetargeted : Dict F → Dict (Target F) → Outcome (Unit {0}) × Dict (Target F) → Type 0
  IsRetargeted payload m (result, m') =
      (result ≡ ok tt) × ((k : String) → lookup k m' ≡ retargeted k payload (lookup k m))

  retargeted_nil : (k : String) (o : Option (Target F)) → o ≡ retargeted k [] o
  retargeted_nil k none = refl
  retargeted_nil k (some t) = refl

  for_each-IsRetargeted :
      (payload : Dict F) (m : Dict (Target F))
      → HasUniqueKeys payload
      → AllKnown m payload
      → IsRetargeted payload m (for_each payload set_node_target m)
  for_each-IsRetargeted [] m u h = (refl, (λ k. retargeted_nil k (lookup k m)))
  for_each-IsRetargeted ((j, x) ∷ rest) m u h =
      let (t, e) = lookup_of_contains_key j m h.0 in
      let m' = insert j (record { target = x; gauge = x }) m in
      let (fine, all) = for_each-IsRetargeted rest m' u.1 (insert-AllKnown j _ m rest h.1) in
      rw (for_each_step (j, x) rest m m' (set_node_target_lem j x m t e))
        (fine, (λ k. all k ∙ retargeted_step k j x rest m t e u.0))

  pub set_targets_known :
      (payload : Dict F) (m : Dict (Target F))
      → check_missing_nodes m payload ≡ []
      → set_targets payload m
        ≡ and_then
            (for_each payload set_node_target m).0
            (λ _. pure (reply 200 Body.success))
            (for_each payload set_node_target m).1
  unfolding set_targets
  set_targets_known payload m e = rw (e, set_targets) refl

  succeed :
      (payload : Dict F) (m : Dict (Target F)) (r : Outcome (Unit {0}) × Dict (Target F))
      → IsRetargeted payload m r
      → let out = and_then r.0 (λ _. pure (reply {F = F} 200 Body.success)) r.1 in
        (out.0 ≡ ok (reply 200 Body.success))
        × ((k : String) → lookup k out.1 ≡ retargeted k payload (lookup k m))
  succeed payload m (ok tt, m') (fine, all) = (refl, all)
  succeed payload m (err e, m') (fine, all) = cc
  succeed payload m (panic, m') (fine, all) = cc

  -- A POST of targets that names only known nodes, each once, succeeds: the target and the gauge of
  -- every node that it names have the new value, and all other nodes are as before.
  pub post_targets_request-sets :
      (payload : Dict F) (m : Dict (Target F))
      → HasUniqueKeys payload
      → check_missing_nodes m payload ≡ []
      → ((post_targets_request (ok payload) m).0 ≡ ok (reply 200 Body.success))
        × ((k : String)
            → lookup k (post_targets_request (ok payload) m).1 ≡ retargeted k payload (lookup k m))
  unfolding post_targets_request
  post_targets_request-sets payload m u e = rw (set_targets_known payload m e) (
      succeed payload m (for_each payload set_node_target m)
        (for_each-IsRetargeted payload m u (check_missing_nodes-AllKnown m payload e)))

  check_missing_nodes-keep :
      (m : Dict (Target F)) (payload : Dict F)
      → check_missing_nodes m payload ≡ keep (λ k. not (contains_key k m)) (keys payload)
  unfolding check_missing_nodes
  check_missing_nodes-keep m [] = refl
  check_missing_nodes-keep m ((k, x) ∷ rest) =
      ground (arith, check_missing_nodes-keep m rest, Bool-cases (contains_key k m))

  pub set_targets_refused :
      (payload : Dict F) (m : Dict (Target F))
      → check_missing_nodes m payload ≢ []
      → set_targets payload m
        ≡ (ok (reply 400 (Body.nodes_missing (check_missing_nodes m payload))), m)
  unfolding set_targets
  set_targets_refused payload m h = ground arith

  -- A POST of targets that names an unknown node changes no target, not even that of a node that is
  -- known: the answer has status 400 and lists the unknown nodes, in the order of the payload.
  pub post_targets_request-refuses :
      (payload : Dict F) (m : Dict (Target F)) (node : String)
      → In node (keys payload)
      → contains_key node m ≡ false
      → post_targets_request (ok payload) m ≡ (
        ok (reply 400 (Body.nodes_missing (keep (λ k. not (contains_key k m)) (keys payload)))),
        m,
      )
  unfolding post_targets_request
  post_targets_request-refuses payload m node i e =
      let unknown = λ (k : String). not (contains_key k m) in
      rw (sym (check_missing_nodes-keep m payload)) (
        set_targets_refused payload m (
          rw (check_missing_nodes-keep m payload)
            (keep-In unknown node (keys payload) i (ground arith))))
