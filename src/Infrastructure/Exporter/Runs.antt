-- ===== src/Infrastructure/Exporter/Runs.antt =====
-- What holds in every state that the exporter reaches.
use target_exporter.Prelude.{
  ◌≡◌, refl, Bool, true, false, ◌||◌, String, List, [], ◌∷◌, Dict, keys, contains_key,
  HasUniqueKeys, arith,
}
use target_exporter.Float.{Float64, IsOrdered}
use target_exporter.World.{Env}
use target_exporter.Scheduling.{Target, Schedulable}
use target_exporter.Scheduling.SchedulableStrategy.Flags.{AtMostOne, AllClosed-Only}
use target_exporter.Scheduling.SchedulableStrategy.Single.{reconcile-AtMostOne}
use target_exporter.Infrastructure.Exporter.{
  TargetExporter, new_target_exporter, start_metrics, round_of_schedulable, round_of_reduce_targets,
  targets_posted, schedulable_stopped, Step, Run,
}
use target_exporter.Infrastructure.Exporter.Kept.{Holds, empty-IsFresh}
use target_exporter.Infrastructure.Exporter.KeptTargets.{
  IsExported, load_targets-Holds, post_targets_request-Holds, reduce-Holds,
}
use target_exporter.Infrastructure.Exporter.KeptFlags.{
  IsShown, export_schedulable-Holds, export_schedulable-AllClosed, mark_all-Holds, schedule-Holds,
}

module _ {V W : Type 0} where
  contains_key-keys :
      (k : String) (m : Dict V) (n : Dict W) → keys m ≡ keys n → contains_key k m ≡ contains_key k n
  contains_key-keys k [] [] e = refl
  contains_key-keys k ((i, v) ∷ m) ((j, w) ∷ n) e = ground (arith, contains_key-keys k m n)
  contains_key-keys k [] (y ∷ n) e = cc
  contains_key-keys k (x ∷ m) [] e = cc

  HasUniqueKeys-keys :
      (m : Dict V) (n : Dict W) → keys m ≡ keys n → HasUniqueKeys n → HasUniqueKeys m
  HasUniqueKeys-keys [] n e u = tt
  HasUniqueKeys-keys ((i, v) ∷ m) ((j, w) ∷ n) e u =
      ground (arith, contains_key-keys i m n, HasUniqueKeys-keys m n)
  HasUniqueKeys-keys (x ∷ m) [] e u = cc

module _ {F Q : Type 0} ⦃f : Float64 F⦄ where
  -- The maps have the configured nodes, and the gauges export what the maps have.
  abbrev pub IsConsistent : Dict F → TargetExporter F Q → Type 0
  IsConsistent config t =
      Holds IsExported (keys config) t.targets × Holds IsShown (keys config) t.schedulable

module _ {F Q : Type 0} ⦃f : Float64 F⦄ (laws : IsOrdered F) (env : Env F Q) (setpoints : List F)
    (config : Dict F) where
  start_metrics-IsConsistent :
      HasUniqueKeys config
      → IsConsistent config (start_metrics config (new_target_exporter {F = F} {Q = Q}))
  unfolding start_metrics
  start_metrics-IsConsistent u = (
    load_targets-Holds config [] [] u (empty-IsFresh (Target F) config) (refl, tt),
    export_schedulable-Holds config [] [] u (empty-IsFresh (Schedulable F) config) (refl, tt),
  )

  Step-IsConsistent :
      {b : Bool} {t u : TargetExporter F Q}
      → Step env setpoints b t u
      → IsConsistent config t
      → IsConsistent config u
  unfolding targets_posted round_of_reduce_targets round_of_schedulable schedulable_stopped
  Step-IsConsistent (Step.post request t) (h, k) =
      (post_targets_request-Holds (keys config) request t.targets h, k)
  Step-IsConsistent (Step.reduce t) (h, k) =
      (reduce-Holds laws env setpoints (keys config) (record { own = t.targets; log = t.log }) h, k)
  Step-IsConsistent (Step.schedule t) (h, k) =
      (h, schedule-Holds env (keys config) (record { own = t.schedulable; log = t.log }) k)
  Step-IsConsistent (Step.stop t) (h, k) = (h, mark_all-Holds (keys config) t.schedulable k)
  Step-IsConsistent (Step.other e t) (h, k) = (h, k)

  -- In every state that a run reaches from configured targets with different names, in whatever order
  -- targets are posted, the two strategies have their rounds and the schedulable strategy is stopped,
  -- both maps have exactly the configured nodes, in the same order, the gauge of each target exports
  -- the target, and the gauge of each flag is 1 or 0 as the flag says.
  pub Run-IsConsistent :
      {b : Bool} {t : TargetExporter F Q}
      → HasUniqueKeys config
      → Run env setpoints config b t
      → IsConsistent config t
  Run-IsConsistent u Run.started = start_metrics-IsConsistent u
  Run-IsConsistent u (Run.then r s) = Step-IsConsistent s (Run-IsConsistent u r)

  Step-AtMostOne :
      {b : Bool} {t u : TargetExporter F Q}
      → HasUniqueKeys config
      → contains_key "" config ≡ false
      → Step env setpoints b t u
      → b ≡ false
      → keys t.schedulable ≡ keys config
      → AtMostOne t.schedulable
      → AtMostOne u.schedulable
  unfolding targets_posted round_of_reduce_targets round_of_schedulable
  Step-AtMostOne u e (Step.post request t) going same h = h
  Step-AtMostOne u e (Step.reduce t) going same h = h
  Step-AtMostOne u e (Step.schedule t) going same h =
      (reconcile-AtMostOne env (record { own = t.schedulable; log = t.log })
        (HasUniqueKeys-keys t.schedulable config same u)
        (rw (contains_key-keys "" t.schedulable config same) e) h).1
  Step-AtMostOne u e (Step.stop t) going same h = cc
  Step-AtMostOne u e (Step.other x t) going same h = h

  start_metrics-AtMostOne :
      AtMostOne (start_metrics config (new_target_exporter {F = F} {Q = Q})).schedulable
  unfolding start_metrics
  start_metrics-AtMostOne = ("", AllClosed-Only "" _ (export_schedulable-AllClosed config [] tt))

  going_on : (b c : Bool) → (b || c) ≡ false → (b ≡ false) × (c ≡ false)
  going_on false false e = (refl, refl)
  going_on false true e = cc
  going_on true c e = cc

  going-AtMostOne :
      {b : Bool} {t : TargetExporter F Q}
      → HasUniqueKeys config
      → contains_key "" config ≡ false
      → Run env setpoints config b t
      → b ≡ false
      → AtMostOne t.schedulable
  going-AtMostOne u e Run.started going = start_metrics-AtMostOne
  going-AtMostOne u e (Run.then {b} {c} r s) going =
      let (first, last) = going_on b c going in
      Step-AtMostOne u e s last (Run-IsConsistent u r).1.0 (going-AtMostOne u e r first)

  -- In every state that a run reaches from the configured targets without a stop of the schedulable
  -- strategy, whatever is posted and whatever the services answer, at most one node is schedulable, if
  -- the configured names are different and not empty.
  pub Run-AtMostOne :
      {t : TargetExporter F Q}
      → HasUniqueKeys config
      → contains_key "" config ≡ false
      → Run env setpoints config false t
      → AtMostOne t.schedulable
  Run-AtMostOne u e r = going-AtMostOne u e r refl
