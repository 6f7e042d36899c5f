-- ===== src/Infrastructure/Exporter/KeptTargets.antt =====
-- What each part keeps of the targets.
use target_exporter.Prelude.{
  ◌≡◌, ◌≢◌, ◌⊎◌, refl, ◌∙◌, ap, sym, append-nil, append_assoc, inl, inr, String, List, [], ◌∷◌,
  ◌++◌, Dict, lookup, insert, keys, All, HasUniqueKeys, arith, Option-cases,
}
use target_exporter.Float.{Float64, IsOrdered}
use target_exporter.Outcome.{Outcome, ok, err, panic, and_then_keeps, for_each, for_each_keeps}
use target_exporter.World.{Env, St}
use target_exporter.Scheduling.{Target}
use target_exporter.Scheduling.ReduceTargets
use target_exporter.Scheduling.ReduceTargets.Lowering.{Lowers, reconcile-Lowers}
use target_exporter.Infrastructure.TargetHandlers.{
  check_missing_nodes, set_node_target, post_targets_request,
}
use target_exporter.Infrastructure.Targets.{
  set_node_target_lem, set_node_target-none, set_targets_known, set_targets_refused,
}
use target_exporter.Infrastructure.Exporter.{load_targets}
use target_exporter.Infrastructure.Exporter.Kept.{
  Holds, IsFresh, insert-Holds, insert-Holds_new, insert-IsFresh,
}

empty_or_not : {A : Type 0} (xs : List A) → (xs ≡ []) ⊎ (xs ≢ [])
empty_or_not [] = inl refl
empty_or_not (x ∷ xs) = inr (λ e. cc)

module _ {F : Type 0} where
  -- The gauge exports the target.
  abbrev pub IsExported : Target F → Type 0
  IsExported t = t.gauge ≡ t.target

  pub load_targets-Holds :
      (config : Dict F) (ks : List String) (m : Dict (Target F))
      → HasUniqueKeys config
      → IsFresh m config
      → Holds IsExported ks m
      → Holds IsExported (ks ++ keys config) (load_targets config m)
  unfolding load_targets
  load_targets-Holds [] ks m u h (same, all) = (same ∙ sym (append-nil ks), all)
  load_targets-Holds ((k, x) ∷ rest) ks m u h holds =
      let t : Target F = record { target = x; gauge = x } in
      rw (sym (append_assoc ks (k ∷ []) (keys rest))) (
        load_targets-Holds rest (ks ++ (k ∷ [])) (insert k t m) u.1
          (insert-IsFresh k t m rest u.0 h.1) (insert-Holds_new IsExported ks k t m h.0 refl holds))

  set_node_target-Holds :
      (ks : List String) (e : String × F) (m : Dict (Target F))
      → Holds IsExported ks m
      → Holds IsExported ks (set_node_target e m).1
  set_node_target-Holds ks (k, x) m h = elim (Option-cases (lookup k m)) [
    | inl e ↦ rw (ap (λ r. r.1) (set_node_target-none k x m e)) h
    | inr (t, e) ↦
        rw (ap (λ r. r.1) (set_node_target_lem k x m t e))
          (insert-Holds IsExported ks k (record { target = x; gauge = x }) t m e refl h)
  ]

  -- A POST of targets, whatever it answers.
  pub post_targets_request-Holds :
      (ks : List String) (request : Outcome (Dict F)) (m : Dict (Target F))
      → Holds IsExported ks m
      → Holds IsExported ks (post_targets_request request m).1
  unfolding post_targets_request
  post_targets_request-Holds ks (err e) m h = h
  post_targets_request-Holds ks panic m h = h
  post_targets_request-Holds ks (ok payload) m h =
      elim (empty_or_not (check_missing_nodes m payload)) [
        | inl e ↦ rw (set_targets_known payload m e) (
            and_then_keeps (Holds IsExported ks) (for_each payload set_node_target m).0 _
              (for_each payload set_node_target m).1
              (for_each_keeps (Holds IsExported ks) payload set_node_target
                (set_node_target-Holds ks) m h)
              (λ a s r. r))
        | inr e ↦ rw (set_targets_refused payload m e) h
      ]

  reduced-Holds :
      ⦃f : Float64 F⦄ (ks : List String) (m n : Dict (Target F))
      → Lowers m n
      → Holds IsExported ks m
      → Holds IsExported ks n
  reduced-Holds ks m n l (same, all) = (Lowers-keys m n l ∙ same, Lowers-All m n l all)
    where
      Lowers-keys : (m n : Dict (Target F)) → Lowers m n → keys n ≡ keys m
      Lowers-keys [] [] l = refl
      Lowers-keys ((k, t) ∷ m) ((j, u) ∷ n) (e, low, l) = ground (arith, Lowers-keys m n l)
      Lowers-keys [] (e ∷ n) l = absurd l
      Lowers-keys (e ∷ m) [] l = absurd l

      Lowers-All :
          (m n : Dict (Target F))
          → Lowers m n
          → All (λ e. IsExported e.1) m
          → All (λ e. IsExported e.1) n
      Lowers-All [] [] l h = tt
      Lowers-All ((k, t) ∷ m) ((j, u) ∷ n) (e, low, l) (h, all) =
          (elim low [ inl same ↦ rw same h | inr (exact, _) ↦ exact ], Lowers-All m n l all)
      Lowers-All [] (e ∷ n) l h = absurd l
      Lowers-All (e ∷ m) [] l h = absurd l

-- A round of the reduce targets strategy.
pub reduce-Holds :
    {F Q : Type 0} ⦃f : Float64 F⦄ (laws : IsOrdered F) (env : Env F Q) (setpoints : List F)
    (ks : List String) (st : St (Dict (Target F)) Q)
    → Holds IsExported ks st.own
    → Holds IsExported ks (ReduceTargets.reconcile env setpoints st).1.own
reduce-Holds laws env setpoints ks st h =
    reduced-Holds ks st.own _ (reconcile-Lowers laws env setpoints st) h
