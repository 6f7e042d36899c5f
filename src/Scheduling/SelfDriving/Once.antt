-- ===== src/Scheduling/SelfDriving/Once.antt =====
-- How often a pod is patched in a visit.
use target_exporter.Prelude.{
  ℕ, ◌+◌, ◌≡◌, refl, Bool, Bool-cases, inl, inr, true, false, not, String, Option, List, [], ◌∷◌,
  Dict, keep, HasUniqueKeys, insert-HasUniqueKeys, arith, ◌==◌, if◌then◌else◌,
}
use target_exporter.Prelude.Int.{ℤ}
use target_exporter.Float.{Float64, num, ge}
use target_exporter.Outcome.{
  Outcome, ok, err, panic, Action, OnOk, OnOk-bind, OnOk-self, ◌>>=◌, ◌>>◌, lift, for_each,
}
use target_exporter.World.{Quantity, Time, Pod, Event, Env, St}
use target_exporter.World.Counts.{
  AtMost, call-AtMost, stay-AtMost, weaker, >>=-AtMost, for_each-AtMost, lift-AtMost,
  tally-HasUniqueKeys,
}
use target_exporter.Promclient.{NodeCpuUsage, get_avg_instant_usage}
use target_exporter.Kubeclient.{patch_cpu_limit}
use target_exporter.Kubeclient.Builder.{get_min_cpu}
use target_exporter.Scheduling.SelfDriving.{
  SkipItem, get_pod_from_name, should_skip_pod, cpu_limit_of,
}
use target_exporter.Scheduling.SelfDriving.Delta.{
  Split, simple_deltas, even_deltas, split_pod, split_min, split_pods, throttle_deltas,
  get_violating_pods_delta,
}
use target_exporter.Scheduling.SelfDriving.Round.{
  pod_or_panic, add_pod_to_skip_list, patch_pod, patch_pods,
}

if-OnOk :
    {A : Type 0} (R : A → Type 0) (b : Bool) (o p : Outcome A)
    → OnOk R o
    → OnOk R p
    → OnOk R (if b then o else p)
if-OnOk R true o p h k = h
if-OnOk R false o p h k = k

module _ {F Q : Type 0} where
  simple_deltas-HasUniqueKeys :
      (delta : F) (pods : List (Pod Q)) (updates : Dict F)
      → HasUniqueKeys updates
      → HasUniqueKeys (simple_deltas delta pods updates)
  unfolding simple_deltas
  simple_deltas-HasUniqueKeys delta [] updates h = h
  simple_deltas-HasUniqueKeys delta (pod ∷ rest) updates h =
      simple_deltas-HasUniqueKeys delta rest _ (insert-HasUniqueKeys pod.name delta updates h)

  even_deltas-HasUniqueKeys :
      (delta : F) (pods : List (Pod Q)) (updates : Dict F)
      → HasUniqueKeys updates
      → HasUniqueKeys (even_deltas delta pods updates)
  unfolding even_deltas
  even_deltas-HasUniqueKeys delta [] updates h = h
  even_deltas-HasUniqueKeys delta (pod ∷ rest) updates h =
      even_deltas-HasUniqueKeys delta rest _ (insert-HasUniqueKeys pod.name delta updates h)

  abbrev IsSplit : Split F Q → Type 0
  IsSplit s = HasUniqueKeys s.updates

  if-IsSplit : (b : Bool) (s t : Split F Q) → IsSplit s → IsSplit t → IsSplit (if b then s else t)
  if-IsSplit true s t hs ht = hs
  if-IsSplit false s t hs ht = ht

module _ {F Q : Type 0} ⦃f : Float64 F⦄ ⦃q : Quantity Q⦄ (env : Env F Q) where
  split_pod-IsSplit :
      (cpu_counts : Dict ℤ) (node : String) (avg : F) (pod : Pod Q) (min_cpu : F) (s : Split F Q)
      → IsSplit s
      → OnOk IsSplit (split_pod env cpu_counts node avg pod min_cpu s)
  unfolding split_pod
  split_pod-IsSplit cpu_counts node avg pod min_cpu s h =
      OnOk-bind (λ limit. cpu_limit_of pod ≡ ok limit) IsSplit (cpu_limit_of pod) _
        (OnOk-self (cpu_limit_of pod))
        λ limit e.
          if-IsSplit (f.lt (f.sub min_cpu (f.abs avg)) (num 0)) _ _
            (insert-HasUniqueKeys pod.name _ s.updates h) h

  split_min-IsSplit :
      (cpu_counts : Dict ℤ) (node : String) (avg : F) (pod : Pod Q) (min_cpu : Outcome F)
      (s : Split F Q)
      → IsSplit s
      → OnOk IsSplit (split_min env cpu_counts node avg pod min_cpu s)
  unfolding split_min
  split_min-IsSplit cpu_counts node avg pod (ok x) s h =
      split_pod-IsSplit cpu_counts node avg pod x s h
  split_min-IsSplit cpu_counts node avg pod (err e) s h =
      ground (arith, Bool-cases (e == "job min annotation not found"))
  split_min-IsSplit cpu_counts node avg pod panic s h = tt

  split_pods-IsSplit :
      (cpu_counts : Dict ℤ) (node : String) (avg : F) (pods : List (Pod Q)) (s : Split F Q)
      → IsSplit s
      → OnOk IsSplit (split_pods env cpu_counts node avg pods s)
  unfolding split_pods
  split_pods-IsSplit cpu_counts node avg [] s h = h
  split_pods-IsSplit cpu_counts node avg (pod ∷ rest) s h =
      OnOk-bind IsSplit IsSplit (split_min env cpu_counts node avg pod (get_min_cpu env pod) s) _
        (split_min-IsSplit cpu_counts node avg pod (get_min_cpu env pod) s h)
        (λ s' h'. split_pods-IsSplit cpu_counts node avg rest s' h')

  get_violating_pods_delta-HasUniqueKeys :
      (cpu_counts : Dict ℤ) (diffs : NodeCpuUsage F) (pods : List (Pod Q))
      → OnOk HasUniqueKeys (get_violating_pods_delta env cpu_counts diffs pods)
  unfolding get_violating_pods_delta throttle_deltas
  get_violating_pods_delta-HasUniqueKeys cpu_counts diffs pods =
      if-OnOk HasUniqueKeys (ge (get_avg_instant_usage diffs.usages) (num 0)) _ _
        (simple_deltas-HasUniqueKeys _ pods [] tt)
        (OnOk-bind IsSplit HasUniqueKeys
          (split_pods env cpu_counts diffs.node_name (get_avg_instant_usage diffs.usages) pods
            (record {
              updates = [];
              subceeding_count = 0;
              ignore_partials = num 0;
              not_subceeding = [];
            }))
          _ (split_pods-IsSplit cpu_counts diffs.node_name _ pods _ tt)
          (λ s h. even_deltas-HasUniqueKeys _ s.not_subceeding s.updates h))

-- A patch of the pod's CPU limit.
abbrev pub is_patch_of : {Q : Type 0} → String → Event Q → Bool
is_patch_of name (Event.patch_cpu_limit pod limit) = pod == name
is_patch_of name _ = false

module _ {F Q : Type 0} ⦃f : Float64 F⦄ ⦃q : Quantity Q⦄ (env : Env F Q) (name : String) where
  abbrev Own : Type 0
  Own = List (SkipItem Q)

  patched :
      (o : Option (Pod Q)) (pod_name : String) (g : Q → Q)
      → AtMost {S = Own} (is_patch_of name) (if pod_name == name then 1 else 0) (
          lift (pod_or_panic o) >>= λ pod. lift (cpu_limit_of pod) >>= λ limit.
          patch_cpu_limit env (g limit) pod_name >> add_pod_to_skip_list env pod limit)
  unfolding patch_cpu_limit add_pod_to_skip_list
  patched o pod_name g =
      let p = is_patch_of {Q = Q} name in
      let n : ℕ = if pod_name == name then 1 else 0 in
      lift-AtMost p n (pod_or_panic o) _ λ pod. lift-AtMost p n (cpu_limit_of pod) _ λ limit.
        weaker p (n + 0) n _ (omega arith) (
          >>=-AtMost p n 0 (patch_cpu_limit env (g limit) pod_name) _
            (call-AtMost p (Event.patch_cpu_limit pod_name (g limit)) env.acknowledge)
            (λ _. stay-AtMost p 0 (add_pod_to_skip_list env pod limit) (λ st. refl)))

  deltas-AtMost :
      (o : Outcome (Dict F)) (body : String × F → Action (St Own Q) (Unit {0}))
      → OnOk HasUniqueKeys o
      → ((e : String × F) → AtMost (is_patch_of name) (if e.0 == name then 1 else 0) (body e))
      → AtMost (is_patch_of name) 1 (lift o >>= λ deltas. for_each deltas body)
  deltas-AtMost (ok deltas) body u h = record {
    bound =
        (weaker (is_patch_of name) _ 1 (for_each deltas body) (tally-HasUniqueKeys name deltas u)
          (for_each-AtMost (is_patch_of name) (λ e. e.0 == name) deltas body h)).bound;
  }
  deltas-AtMost (err e) body u h = record { bound = λ st. omega arith }
  deltas-AtMost panic body u h = record { bound = λ st. omega arith }

  patch_pod-AtMost :
      (cpu_counts : Dict ℤ) (node : String) (avg : F) (pods : List (Pod Q)) (entry : String × F)
      → AtMost {S = Own}
          (is_patch_of name)
          (if entry.0 == name then 1 else 0)
          (patch_pod env cpu_counts node avg pods entry)
  unfolding patch_pod
  patch_pod-AtMost cpu_counts node avg pods (pod_name, update) = record {
    bound = λ st. elim (Bool-cases (f.eq update (num 0))) [
      | inl e ↦ rw (e, patch_pod) (omega arith)
      | inr e ↦ rw (e, patch_pod) ((patched (get_pod_from_name pods pod_name) pod_name _).bound st)
    ];
  }

  -- A visit of a node patches no pod twice: at most one of its calls is a patch of the given name,
  -- whatever the pods are called and however the visit ends.
  pub patch_pods-AtMost :
      (cpu_counts : Dict ℤ) (diff : NodeCpuUsage F) (now : Time) (items : Own) (pods : List (Pod Q))
      → AtMost {S = Own} (is_patch_of name) 1 (patch_pods env cpu_counts diff now items pods)
  unfolding patch_pods
  patch_pods-AtMost cpu_counts diff now items pods =
      let filtered = keep (λ pod. not (should_skip_pod now items pod)) pods in
      deltas-AtMost (get_violating_pods_delta env cpu_counts diff filtered) _
        (get_violating_pods_delta-HasUniqueKeys env cpu_counts diff filtered)
        (patch_pod-AtMost cpu_counts diff.node_name (get_avg_instant_usage diff.usages) filtered)
