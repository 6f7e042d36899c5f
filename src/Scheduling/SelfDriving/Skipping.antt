-- ===== src/Scheduling/SelfDriving/Skipping.antt =====
-- Which pods a round of the self-driving strategy patches.
use text.Mathlib.Text.{find?}
use target_exporter.Prelude.{
  ◌≡◌, refl, sym, append-nil, Bool-cases, inl, inr, false, not, String, Option, none, some, List,
  [], ◌∷◌, Dict, keep, All, In, ◌==◌, arith, eq_iff,
}
use target_exporter.Prelude.Int.{ℤ}
use target_exporter.Float.{Float64, num}
use target_exporter.Outcome.{panic, ◌>>=◌, ◌>>◌, lift}
use target_exporter.World.{Quantity, Time, Pod, Event, Env}
use target_exporter.World.Calls.{
  Calls, call-Calls, stay-Calls, lift-Calls, >>=-Calls, for_each_body-Calls,
}
use target_exporter.Promclient.{NodeCpuUsage, get_avg_instant_usage}
use target_exporter.Kubeclient.{patch_cpu_limit}
use target_exporter.Scheduling.SelfDriving.{
  SkipItem, is_found, contains_pod, is_fresh, get_pod_from_name, should_skip_pod, cpu_limit_of,
}
use target_exporter.Scheduling.SelfDriving.Delta.{get_violating_pods_delta}
use target_exporter.Scheduling.SelfDriving.Round.{
  pod_or_panic, add_pod_to_skip_list, patch_pod, patch_pods,
}

module _ {F Q : Type 0} ⦃f : Float64 F⦄ ⦃q : Quantity Q⦄ (env : Env F Q)
    (P : Event Q → Type 0) where
  abbrev Own : Type 0
  Own = List (SkipItem Q)

  patch_found-Calls :
      (o : Option (Pod Q)) (name : String) (g : Q → Q)
      → ((pod : Pod Q) → o ≡ some pod → (limit : Q) → P (Event.patch_cpu_limit name limit))
      → Calls {S = Own} P (
          lift (pod_or_panic o) >>= λ pod. lift (cpu_limit_of pod) >>= λ limit.
          patch_cpu_limit env (g limit) name >> add_pod_to_skip_list env pod limit)
  unfolding patch_cpu_limit add_pod_to_skip_list
  patch_found-Calls none name g h = stay-Calls P (λ st. (panic, st)) (λ st. refl)
  patch_found-Calls (some pod) name g h =
      >>=-Calls P (lift (pod_or_panic (some pod))) _ (lift-Calls P _) λ p.
        >>=-Calls P (lift (cpu_limit_of p)) _ (lift-Calls P _) λ limit.
          >>=-Calls P (patch_cpu_limit env (g limit) name) _
            (call-Calls P _ env.acknowledge (h pod refl (g limit)))
            (λ _. stay-Calls P (add_pod_to_skip_list env p limit) (λ st. refl))

  patch_pod-Calls :
      (cpu_counts : Dict ℤ) (node : String) (avg : F) (pods : List (Pod Q)) (entry : String × F)
      → ((pod : Pod Q)
          → get_pod_from_name pods entry.0 ≡ some pod
          → (limit : Q) → P (Event.patch_cpu_limit entry.0 limit))
      → Calls {S = Own} P (patch_pod env cpu_counts node avg pods entry)
  unfolding patch_pod
  patch_pod-Calls cpu_counts node avg pods (name, update) h = record {
    calls = λ st. elim (Bool-cases (f.eq update (num 0))) [
      | inl e ↦ rw (e, patch_pod) ([], sym (append-nil st.log), tt)
      | inr e ↦
          rw (e, patch_pod) ((patch_found-Calls (get_pod_from_name pods name) name _ h).calls st)
    ];
  }

  pub patch_pods-Calls :
      (cpu_counts : Dict ℤ) (diff : NodeCpuUsage F) (now : Time) (items : Own) (pods : List (Pod Q))
      → ((name : String) (pod : Pod Q)
          → get_pod_from_name (keep (λ pod. not (should_skip_pod now items pod)) pods) name
            ≡ some pod
          → (limit : Q) → P (Event.patch_cpu_limit name limit))
      → Calls {S = Own} P (patch_pods env cpu_counts diff now items pods)
  unfolding patch_pods
  patch_pods-Calls cpu_counts diff now items pods h =
      let filtered = keep (λ pod. not (should_skip_pod now items pod)) pods in
      >>=-Calls P (lift (get_violating_pods_delta env cpu_counts diff filtered)) _ (lift-Calls P _)
        λ deltas. for_each_body-Calls P deltas _ λ entry.
          patch_pod-Calls cpu_counts diff.node_name (get_avg_instant_usage diff.usages) filtered
            entry (h entry.0)

contains_pod-All :
    {Q : Type 0} (items : List (SkipItem Q)) (name : String)
    → contains_pod items name ≡ false
    → All (λ item. (item.pod_name == name) ≡ false) items
unfolding contains_pod
contains_pod-All [] name h = tt
contains_pod-All (item ∷ rest) name h = ground (arith, contains_pod-All rest name)

module _ {Q : Type 0} (now : Time) (items : List (SkipItem Q)) where
  -- The pod is not the scheduler's own, no item of the list is its, and it is not new.
  abbrev pub IsOpen : Pod Q → Type 0
  IsOpen pod =
      (is_found (find? pod.name "telemetry-aware-scheduling") ≡ false)
      × All (λ item. (item.pod_name == pod.name) ≡ false) items
      × (is_fresh now pod.conditions ≡ false)

  not_skipped : (pod : Pod Q) → should_skip_pod now items pod ≡ false → IsOpen pod
  unfolding should_skip_pod
  not_skipped pod e =
      let (own, listed, fresh) = split e in (own, contains_pod-All items pod.name listed, fresh)
    where
      split :
          should_skip_pod now items pod ≡ false
          → (is_found (find? pod.name "telemetry-aware-scheduling") ≡ false)
            × (contains_pod items pod.name ≡ false)
            × (is_fresh now pod.conditions ≡ false)
      split h = ground arith

  -- A patch of a pod in the list that is open to patches.
  abbrev pub IsFair : List (Pod Q) → Event Q → Type 0
  IsFair pods (Event.patch_cpu_limit name limit) =
      (pod : Pod Q) × In pod pods × (pod.name ≡ name) × IsOpen pod
  IsFair pods _ = ⊥

  keep-fair :
      (pods : List (Pod Q)) (name : String) (pod : Pod Q)
      → get_pod_from_name (keep (λ pod. not (should_skip_pod now items pod)) pods) name ≡ some pod
      → In pod pods × (pod.name ≡ name) × (should_skip_pod now items pod ≡ false)
  unfolding get_pod_from_name
  keep-fair [] name pod e = cc
  keep-fair (p ∷ rest) name pod e = ground (arith, eq_iff p.name name, keep-fair rest name pod)

-- The visit of a node, given its pods, the skip list and the time, patches no pod but one of them that
-- is not the scheduler's own, is not on the skip list and has been scheduled for a minute.
pub patch_pods-IsFair :
    {F Q : Type 0} ⦃f : Float64 F⦄ ⦃q : Quantity Q⦄ (env : Env F Q) (cpu_counts : Dict ℤ)
    (diff : NodeCpuUsage F) (now : Time) (items : List (SkipItem Q)) (pods : List (Pod Q))
    → Calls (IsFair now items pods) (patch_pods env cpu_counts diff now items pods)
patch_pods-IsFair env cpu_counts diff now items pods =
    patch_pods-Calls env (IsFair now items pods) cpu_counts diff now items pods
      λ name pod found limit.
        let (place, same, kept) = keep-fair now items pods name pod found in
        (pod, place, same, not_skipped now items pod kept)
