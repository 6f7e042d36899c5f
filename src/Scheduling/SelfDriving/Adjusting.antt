-- ===== src/Scheduling/SelfDriving/Adjusting.antt =====
-- What a visit of a node patches, for each update and for each pod.
use target_exporter.Prelude.{
  ◌≡◌, refl, sym, append-nil, inl, true, false, not, keep, String, Option, none, some, List, [],
  ◌∷◌, ◌++◌, Dict, Bool, if◌then◌else◌,
}
use target_exporter.Prelude.Int.{ℤ}
use target_exporter.Float.{Float64, num}
use target_exporter.Outcome.{Outcome, ok, err, panic, Action, and_then, ◌>>=◌, ◌>>◌, lift, for_each}
use target_exporter.World.{Quantity, Time, Pod, Event, Env, St}
use target_exporter.World.Covering.{Covers, for_each-Covers}
use target_exporter.Promclient.{NodeCpuUsage, get_avg_instant_usage}
use target_exporter.Kubeclient.{patch_cpu_limit, percentage_to_resource_quantity}
use target_exporter.Scheduling.SelfDriving.{
  SkipItem, should_skip_pod, get_pod_from_name, cpu_limit_of,
}
use target_exporter.Scheduling.SelfDriving.Delta.{get_violating_pods_delta}
use target_exporter.Scheduling.SelfDriving.Round.{
  pod_or_panic, add_pod_to_skip_list, adjusted_limit, patch_pod, patch_pods,
}

module _ {F Q : Type 0} ⦃f : Float64 F⦄ ⦃q : Quantity Q⦄ (cpu_counts : Dict ℤ) (node : String)
    (pods : List (Pod Q)) (change : Q → Q → Q) where
  -- The call sets the limit of the pod of that name among `pods` to its limit changed by the
  -- quantity of the update.
  abbrev pub IsPatch : String × F → Event Q → Type 0
  IsPatch (name, update) e =
      (pod : Pod Q) × (limit : Q) × (get_pod_from_name pods name ≡ some pod)
      × (cpu_limit_of pod ≡ ok limit)
      × (e
          ≡ Event.patch_cpu_limit name
              (change limit (percentage_to_resource_quantity cpu_counts update node)))

-- An update of 0 is passed over.
abbrev pub IsNonzero : {F : Type 0} ⦃f : Float64 F⦄ → String × F → Type 0
IsNonzero ⦃f = f⦄ entry = f.eq entry.1 (num 0) ≡ false

module _ {F Q : Type 0} ⦃f : Float64 F⦄ ⦃q : Quantity Q⦄ (env : Env F Q) (cpu_counts : Dict ℤ)
    (node : String) (avg : F) (pods : List (Pod Q)) (change : Q → Q → Q) where
  abbrev Own : Type 0
  Own = List (SkipItem Q)

  abbrev IsCall : String × F → Event Q → Type 0
  IsCall = IsPatch cpu_counts node pods change

  module _ (same : (limit delta : Q) → adjusted_limit avg limit delta ≡ change limit delta) where
    replied :
        (entry : String × F) (pod : Pod Q) (limit : Q) (st : St Own Q) (reply : Outcome (Unit {0}))
        → get_pod_from_name pods entry.0 ≡ some pod
        → cpu_limit_of pod ≡ ok limit
        → let delta : Q = percentage_to_resource_quantity cpu_counts entry.1 node in
          let call = Event.patch_cpu_limit entry.0 (adjusted_limit avg limit delta) in
          Covers IsCall IsNonzero (entry ∷ []) st.log (
            and_then reply
              (λ _. add_pod_to_skip_list env pod limit)
              (record st { log = st.log ++ (call ∷ []) }))
    unfolding add_pod_to_skip_list
    replied entry pod limit st (ok done) found has =
        let delta : Q = percentage_to_resource_quantity cpu_counts entry.1 node in
        let p : IsCall entry _ = (pod, limit, found, has, rw (same limit delta) refl) in
        (_ ∷ [], refl, ((entry, inl refl, p), tt), (λ ended. ((λ needs. (_, inl refl, p)), tt)))
    replied entry pod limit st (err t) found has =
        let delta : Q = percentage_to_resource_quantity cpu_counts entry.1 node in
        let p : IsCall entry _ = (pod, limit, found, has, rw (same limit delta) refl) in
        (_ ∷ [], refl, ((entry, inl refl, p), tt), (λ ended. cc))
    replied entry pod limit st panic found has =
        let delta : Q = percentage_to_resource_quantity cpu_counts entry.1 node in
        let p : IsCall entry _ = (pod, limit, found, has, rw (same limit delta) refl) in
        (_ ∷ [], refl, ((entry, inl refl, p), tt), (λ ended. cc))

    abbrev rest_of : String → F → Option (Pod Q) → Action (St Own Q) (Unit {0})
    rest_of name update o = lift (pod_or_panic o) >>= λ pod. lift (cpu_limit_of pod) >>= λ limit.
        patch_cpu_limit env
          (adjusted_limit avg limit (percentage_to_resource_quantity cpu_counts update node)) name
        >> add_pod_to_skip_list env pod limit

    unpatched :
        (entry : String × F) (st : St Own Q) (o : Outcome (Unit {0}))
        → (o ≡ ok tt → IsNonzero entry → ⊥)
        → Covers IsCall IsNonzero (entry ∷ []) st.log (o, st)
    unpatched entry st o never =
        ([], sym (append-nil st.log), tt, (λ ended. ((λ needs. absurd (never ended needs)), tt)))

    by_limit :
        (entry : String × F) (pod : Pod Q) (st : St Own Q) (limits : Outcome Q)
        → get_pod_from_name pods entry.0 ≡ some pod
        → cpu_limit_of pod ≡ limits
        → Covers IsCall IsNonzero (entry ∷ []) st.log (
            and_then limits
              (λ limit.
                patch_cpu_limit env
                  (adjusted_limit avg limit
                    (percentage_to_resource_quantity cpu_counts entry.1 node))
                  entry.0
                >> add_pod_to_skip_list env pod limit)
              st)
    unfolding patch_cpu_limit
    by_limit entry pod st (ok limit) found has =
        replied entry pod limit st (env.acknowledge st.log) found has
    by_limit entry pod st (err t) found has = unpatched entry st (err t) (λ e _. cc)
    by_limit entry pod st panic found has = unpatched entry st panic (λ e _. cc)

    by_pod :
        (entry : String × F) (st : St Own Q) (o : Option (Pod Q))
        → get_pod_from_name pods entry.0 ≡ o
        → Covers IsCall IsNonzero (entry ∷ []) st.log (rest_of entry.0 entry.1 o st)
    by_pod entry st none found = unpatched entry st panic (λ e _. cc)
    by_pod entry st (some pod) found = by_limit entry pod st (cpu_limit_of pod) found refl

    by_update :
        (entry : String × F) (st : St Own Q) (b : Bool)
        → f.eq entry.1 (num 0) ≡ b
        → Covers IsCall IsNonzero
            (entry ∷ [])
            st.log
            (if b then (ok tt, st) else rest_of entry.0 entry.1 (get_pod_from_name pods entry.0) st)
    by_update entry st true is = unpatched entry st (ok tt) (λ _ n. cc)
    by_update entry st false is = by_pod entry st (get_pod_from_name pods entry.0) refl

    patch_pod-Covers :
        (entry : String × F) (st : St Own Q)
        → Covers IsCall IsNonzero
            (entry ∷ [])
            st.log
            (patch_pod env cpu_counts node avg pods entry st)
    unfolding patch_pod
    patch_pod-Covers (name, update) st = by_update (name, update) st (f.eq update (num 0)) refl

    -- The calls of the loop over the updates.
    pub patches-Covers :
        (updates : Dict F) (st : St Own Q)
        → Covers IsCall IsNonzero updates st.log
            (for_each updates (patch_pod env cpu_counts node avg pods) st)
    patches-Covers updates st =
        for_each-Covers IsCall IsNonzero (patch_pod env cpu_counts node avg pods) updates
          patch_pod-Covers st

module _ {Q : Type 0} where
  -- The pods of the node that a visit does not skip.
  abbrev pub filtered : Time → List (SkipItem Q) → List (Pod Q) → List (Pod Q)
  filtered now items pods = keep (λ pod. not (should_skip_pod now items pod)) pods

module _ {F Q : Type 0} ⦃f : Float64 F⦄ ⦃q : Quantity Q⦄ (env : Env F Q) (cpu_counts : Dict ℤ)
    (diff : NodeCpuUsage F) where
  -- The loop of a visit over the updates.
  abbrev pub patches : List (Pod Q) → Dict F → Action (St (List (SkipItem Q)) Q) (Unit {0})
  patches todo updates =
      for_each updates
        (patch_pod env cpu_counts diff.node_name (get_avg_instant_usage diff.usages) todo)

  pub patch_pods_lem :
      (now : Time) (items : List (SkipItem Q)) (pods : List (Pod Q)) (st : St (List (SkipItem Q)) Q)
      → patch_pods env cpu_counts diff now items pods st
        ≡ and_then
            (get_violating_pods_delta env cpu_counts diff (filtered now items pods))
            (patches (filtered now items pods))
            st
  unfolding patch_pods
  patch_pods_lem now items pods st = refl
