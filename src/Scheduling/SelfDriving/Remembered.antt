-- ===== src/Scheduling/SelfDriving/Remembered.antt =====
-- A pod that a visit has patched is on the skip list after it.
use target_exporter.Prelude.{
  ◌<◌, ◌≡◌, refl, ◌∙◌, ap, subst, append_assoc, inl, inr, Bool-cases, true, not, ◌||◌, String,
  Option, none, some, List, [], ◌∷◌, ◌++◌, Dict, keep, All, All-append, tally, ◌==◌, eq_iff, arith,
}
use target_exporter.Prelude.Int.{ℤ}
use target_exporter.Float.{Float64, num}
use target_exporter.Outcome.{
  Outcome, ok, err, panic, and_then, ◌>>=◌, ◌>>◌, lift, for_each, for_each_keeps_ok,
}
use target_exporter.World.{Quantity, Time, Pod, Event, Log, Env, St}
use target_exporter.World.Calls.{All-weaker}
use target_exporter.Promclient.{NodeCpuUsage, get_avg_instant_usage}
use target_exporter.Kubeclient.{patch_cpu_limit}
use target_exporter.Scheduling.SelfDriving.{
  SkipItem, contains_pod, get_pod_from_name, should_skip_pod, cpu_limit_of,
}
use target_exporter.Scheduling.SelfDriving.Delta.{get_violating_pods_delta}
use target_exporter.Scheduling.SelfDriving.Round.{
  pod_or_panic, add_pod_to_skip_list, patch_pod, patch_pods,
}
use target_exporter.Scheduling.SelfDriving.Once.{is_patch_of}

module _ {Q : Type 0} where
  contains_pod-append :
      (items more : List (SkipItem Q)) (name : String)
      → contains_pod (items ++ more) name ≡ (contains_pod items name || contains_pod more name)
  unfolding contains_pod
  contains_pod-append [] more name = refl
  contains_pod-append (item ∷ items) more name = ground (arith, contains_pod-append items more name)

  found-name :
      (pods : List (Pod Q)) (name : String) (pod : Pod Q)
      → get_pod_from_name pods name ≡ some pod
      → (pod.name == name) ≡ true
  unfolding get_pod_from_name
  found-name [] name pod e = cc
  found-name (p ∷ rest) name pod e = ground (arith, found-name rest name pod)

  -- The pod that the call patches is on the list.
  abbrev pub IsListed : List (SkipItem Q) → Event Q → Type 0
  IsListed items (Event.patch_cpu_limit name limit) = contains_pod items name ≡ true
  IsListed items _ = Unit

  IsListed-append :
      (items more : List (SkipItem Q)) (e : Event Q) → IsListed items e → IsListed (items ++ more) e
  IsListed-append items more (Event.patch_cpu_limit name limit) h =
      ground (arith, contains_pod-append items more name)
  IsListed-append items more _ h = tt

  -- Of the calls since the log, those that patch are of pods on the skip list.
  abbrev pub Remembers : Log Q → St (List (SkipItem Q)) Q → Type 0
  Remembers log st = (new : Log Q) × (st.log ≡ log ++ new) × All (IsListed st.own) new

  pub tally-IsListed :
      (items : List (SkipItem Q)) (name : String) (new : Log Q)
      → All (IsListed items) new
      → 0 < tally (is_patch_of name) new
      → contains_pod items name ≡ true
  tally-IsListed items name [] h n = absurd (omega (arith, n))
  tally-IsListed items name (Event.patch_cpu_limit pod limit ∷ new) h n =
      elim (Bool-cases (pod == name)) [
        | inl e ↦ subst (λ k. contains_pod items k ≡ true) ((eq_iff pod name).0 e) h.0
        | inr e ↦ tally-IsListed items name new h.1 (omega (arith, rw e at n))
      ]
  tally-IsListed items name (_ ∷ new) h n = tally-IsListed items name new h.1 (omega (arith, n))

module _ {F Q : Type 0} ⦃f : Float64 F⦄ ⦃q : Quantity Q⦄ (env : Env F Q) (log : Log Q) where
  abbrev Own : Type 0
  Own = List (SkipItem Q)

  remember :
      (pod : Pod Q) (name : String) (limit new_limit : Q) (st : St Own Q)
      (reply : Outcome (Unit {0}))
      → (pod.name == name) ≡ true
      → Remembers log st
      → (and_then reply
          (λ _. add_pod_to_skip_list env pod limit)
          (record st { log = st.log ++ (Event.patch_cpu_limit name new_limit ∷ []) })).0
        ≡ ok tt
      → Remembers log
          (and_then reply
            (λ _. add_pod_to_skip_list env pod limit)
            (record st { log = st.log ++ (Event.patch_cpu_limit name new_limit ∷ []) })).1
  unfolding add_pod_to_skip_list contains_pod
  remember pod name limit new_limit st (err t) e r ended = cc
  remember pod name limit new_limit st panic e r ended = cc
  remember pod name limit new_limit st (ok done) e (new, same, listed) ended = (
    new ++ (Event.patch_cpu_limit name new_limit ∷ []),
    ap (λ l. l ++ (Event.patch_cpu_limit name new_limit ∷ [])) same
        ∙ append_assoc log new (Event.patch_cpu_limit name new_limit ∷ []),
    All-append _ new (Event.patch_cpu_limit name new_limit ∷ [])
        (All-weaker new (IsListed-append st.own _) listed)
        (contains_pod-append st.own _ name ∙ ground (arith, e), tt),
  )

  found-Remembers :
      (o : Option (Pod Q)) (name : String) (g : Q → Q) (st : St Own Q)
      → ((pod : Pod Q) → o ≡ some pod → (pod.name == name) ≡ true)
      → Remembers log st
      → ((lift (pod_or_panic o) >>= λ pod. lift (cpu_limit_of pod) >>= λ limit.
            patch_cpu_limit env (g limit) name >> add_pod_to_skip_list env pod limit)
          st).0
        ≡ ok tt
      → Remembers log
          ((lift (pod_or_panic o) >>= λ pod. lift (cpu_limit_of pod) >>= λ limit.
              patch_cpu_limit env (g limit) name >> add_pod_to_skip_list env pod limit)
            st).1
  unfolding patch_cpu_limit
  found-Remembers none name g st h r ended = cc
  found-Remembers (some pod) name g st h r ended = by_limit (cpu_limit_of pod) ended
    where
      by_limit :
          (limits : Outcome Q)
          → (and_then limits
              (λ limit. patch_cpu_limit env (g limit) name >> add_pod_to_skip_list env pod limit)
              st).0
            ≡ ok tt
          → Remembers log
              (and_then limits
                (λ limit. patch_cpu_limit env (g limit) name >> add_pod_to_skip_list env pod limit)
                st).1
      by_limit (ok limit) e =
          remember pod name limit (g limit) st (env.acknowledge st.log) (h pod refl) r e
      by_limit (err t) e = cc
      by_limit panic e = cc

  patch_pod-Remembers :
      (cpu_counts : Dict ℤ) (node : String) (avg : F) (pods : List (Pod Q)) (entry : String × F)
      (st : St Own Q)
      → Remembers log st
      → (patch_pod env cpu_counts node avg pods entry st).0 ≡ ok tt
      → Remembers log (patch_pod env cpu_counts node avg pods entry st).1
  unfolding patch_pod
  patch_pod-Remembers cpu_counts node avg pods (name, update) st r ended =
      elim (Bool-cases (f.eq update (num 0))) [
        | inl e ↦ rw (e, patch_pod) r
        | inr e ↦
            rw (e, patch_pod)
              (found-Remembers (get_pod_from_name pods name) name _ st (found-name pods name) r
                (rw (e, patch_pod) at ended))
      ]

  pub patch_pods-Remembers :
      (cpu_counts : Dict ℤ) (diff : NodeCpuUsage F) (now : Time) (items : Own) (pods : List (Pod Q))
      (st : St Own Q)
      → Remembers log st
      → (patch_pods env cpu_counts diff now items pods st).0 ≡ ok tt
      → Remembers log (patch_pods env cpu_counts diff now items pods st).1
  unfolding patch_pods
  patch_pods-Remembers cpu_counts diff now items pods st r ended =
      let filtered = keep (λ pod. not (should_skip_pod now items pod)) pods in
      by_deltas (get_violating_pods_delta env cpu_counts diff filtered) filtered ended
    where
      by_deltas :
          (deltas : Outcome (Dict F)) (filtered : List (Pod Q))
          → (and_then deltas
              (λ ds. for_each ds (
                patch_pod env cpu_counts diff.node_name
                  (get_avg_instant_usage diff.usages)
                  filtered))
              st).0
            ≡ ok tt
          → Remembers log
              (and_then deltas
                (λ ds. for_each ds (
                  patch_pod env cpu_counts diff.node_name
                    (get_avg_instant_usage diff.usages)
                    filtered))
                st).1
      by_deltas (ok ds) filtered e =
          for_each_keeps_ok (Remembers log) ds _
            (patch_pod-Remembers cpu_counts diff.node_name (get_avg_instant_usage diff.usages)
              filtered)
            st r e
      by_deltas (err t) filtered e = cc
      by_deltas panic filtered e = cc
