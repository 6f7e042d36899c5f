-- ===== src/Scheduling/SelfDriving/Apart.antt =====
-- A visit leaves the pods alone that the one before it has patched.
use target_exporter.Prelude.{
  ◌<◌, ◌≡◌, refl, sym, ◌∙◌, subst, append-nil, inl, inr, Bool-cases, true, false, String, List, [],
  ◌∷◌, Dict, All, tally, tally-append, ◌==◌, eq_iff, arith,
}
use target_exporter.Prelude.Int.{ℤ}
use target_exporter.Float.{Float64}
use target_exporter.Outcome.{ok}
use target_exporter.World.{Quantity, Time, Pod, Event, Log, Env, St}
use target_exporter.Promclient.{NodeCpuUsage}
use target_exporter.Scheduling.SelfDriving.{SkipItem, contains_pod}
use target_exporter.Scheduling.SelfDriving.Round.{patch_pods}
use target_exporter.Scheduling.SelfDriving.Skipping.{IsFair, patch_pods-IsFair}
use target_exporter.Scheduling.SelfDriving.Once.{is_patch_of}
use target_exporter.Scheduling.SelfDriving.Remembered.{tally-IsListed, patch_pods-Remembers}

module _ {Q : Type 0} where
  contains_pod-none :
      (items : List (SkipItem Q)) (name : String)
      → All (λ item. (item.pod_name == name) ≡ false) items
      → contains_pod items name ≡ false
  unfolding contains_pod
  contains_pod-none [] name h = refl
  contains_pod-none (item ∷ rest) name h = ground (arith, contains_pod-none rest name h.1)

  fair_patches :
      (now : Time) (items : List (SkipItem Q)) (pods : List (Pod Q)) (name : String) (new : Log Q)
      → contains_pod items name ≡ true
      → All (IsFair now items pods) new
      → tally (is_patch_of name) new ≡ 0
  fair_patches now items pods name [] c h = refl
  fair_patches now items pods name (Event.patch_cpu_limit k limit ∷ new) c (fair, h) =
      elim (Bool-cases (k == name)) [
        | inr e ↦ rw e (omega (arith, fair_patches now items pods name new c h))
        | inl e ↦
            let (pod, place, same, (own, unlisted, fresh)) = fair in
            let is : pod.name ≡ name = same ∙ (eq_iff k name).0 e in
            let off = contains_pod-none items pod.name unlisted in
            let on = subst (λ n. contains_pod items n ≡ true) (sym is) c in cc
      ]
  fair_patches now items pods name (_ ∷ new) c h = absurd h.0

-- When a visit of a node has succeeded, a next visit with the skip list as the first has left it, of any
-- node, at any time and whatever the services answer then, patches no pod that the first has patched.
pub patch_pods-apart :
    {F Q : Type 0} ⦃f : Float64 F⦄ ⦃q : Quantity Q⦄ (env : Env F Q) (counts counts' : Dict ℤ)
    (diff diff' : NodeCpuUsage F) (now now' : Time) (items : List (SkipItem Q))
    (pods pods' : List (Pod Q)) (st next : St (List (SkipItem Q)) Q) (name : String)
    → (patch_pods env counts diff now items pods st).0 ≡ ok tt
    → tally (is_patch_of name) st.log
      < tally (is_patch_of name) (patch_pods env counts diff now items pods st).1.log
    → tally
        (is_patch_of name)
        (patch_pods env counts' diff' now'
          (patch_pods env counts diff now items pods st).1.own
          pods'
          next).1.log
      ≡ tally (is_patch_of name) next.log
patch_pods-apart env counts counts' diff diff' now now' items pods pods' st next name e more =
    let p = is_patch_of name in
    let left = (patch_pods env counts diff now items pods st).1 in
    let (new, same, listed) =
      patch_pods-Remembers env st.log counts diff now items pods st
        ([], sym (append-nil st.log), tt) e in
    let some_new : 0 < tally p new =
      omega (arith, subst (λ l. tally p st.log < tally p l) same more, tally-append p st.log new) in
    let on = tally-IsListed left.own name new listed some_new in
    let (later, same', fair) =
      (patch_pods-IsFair env counts' diff' now' left.own pods').calls next in
    rw same' (
      omega
        (arith, tally-append p next.log later, fair_patches now' left.own pods' name later on fair))
