-- ===== src/Scheduling/SelfDriving/Partial.antt =====
-- Pods that throttling would push below their minimum, and what the first loop of the throttling
-- branch of getViolatingPodsDelta has to show of its variables.
use target_exporter.Prelude.{
  ◌≡◌, ◌⊎◌, true, false, String, List, [], ◌∷◌, Dict, length, contains_key, In, All,
}
use target_exporter.Prelude.Int.{ℤ}
use target_exporter.Float.{Float64, num}
use target_exporter.Outcome.{ok}
use target_exporter.World.{Quantity, Pod, Env}
use target_exporter.Kubeclient.{resource_quantity_to_percentage}
use target_exporter.Kubeclient.Builder.{get_min_cpu}
use target_exporter.Scheduling.SelfDriving.{cpu_limit_of}
use target_exporter.Scheduling.SelfDriving.Delta.{Split}

-- The sum of the values, the last entry first.
abbrev pub total : {F : Type 0} ⦃f : Float64 F⦄ → List (String × F) → F
total [] = num 0
total ⦃f = f⦄ (e ∷ es) = f.add (total es) e.1

module _ {F Q : Type 0} ⦃f : Float64 F⦄ ⦃q : Quantity Q⦄ (env : Env F Q) (cpu_counts : Dict ℤ)
    (node : String) (avg : F) where
  -- The whole difference would push the pod below its minimum.
  abbrev pub IsLow : F → Type 0
  IsLow min_cpu = f.lt (f.sub min_cpu (f.abs avg)) (num 0) ≡ true

  abbrev pub IsAmple : F → Type 0
  IsAmple min_cpu = f.lt (f.sub min_cpu (f.abs avg)) (num 0) ≡ false

  -- The pod's limit in percent, less the minimum.
  abbrev pub partial : Pod Q → F → Q → String × F
  partial pod min_cpu limit =
      (pod.name, f.sub (resource_quantity_to_percentage cpu_counts limit node) min_cpu)

  -- The update of its own of a pod that is low.
  abbrev pub IsPartial : List (Pod Q) → String × F → Type 0
  IsPartial pods e =
      (pod : Pod Q) × (min_cpu : F) × (limit : Q) × In pod pods
      × (get_min_cpu env pod ≡ ok min_cpu)
      × (cpu_limit_of pod ≡ ok limit)
      × IsLow min_cpu
      × (e ≡ partial pod min_cpu limit)

  -- A pod with a minimum, and not low.
  abbrev pub IsEven : List (Pod Q) → Pod Q → Type 0
  IsEven pods pod =
      In pod pods × ((min_cpu : F) × (get_min_cpu env pod ≡ ok min_cpu) × IsAmple min_cpu)

  -- A pod with a minimum is in the one list or has its entry in the other.
  abbrev pub IsSeen : List (String × F) → List (Pod Q) → Pod Q → Type 0
  IsSeen partials evens pod =
      (min_cpu : F)
      → get_min_cpu env pod ≡ ok min_cpu
      → (IsAmple min_cpu × In pod evens)
        ⊎ (IsLow min_cpu
            × ((limit : Q) × (cpu_limit_of pod ≡ ok limit)
                × In (partial pod min_cpu limit) partials))

  module _ (pods : List (Pod Q)) where
    -- After the pods `seen`, with the entries that have been made, the last first.
    pub record IsSplit (seen : List (Pod Q)) (s : Split F Q) : Type 0 where
      pub partials : List (String × F)
      pub low : All (IsPartial pods) partials
      pub count : s.subceeding_count ≡ length partials
      pub sum : s.ignore_partials ≡ total partials
      pub entries : All (λ e. In e partials) s.updates
      pub keyed : All (λ e. contains_key e.0 s.updates ≡ true) partials
      pub even : All (IsEven pods) s.not_subceeding
      pub visited : All (IsSeen partials s.not_subceeding) seen
