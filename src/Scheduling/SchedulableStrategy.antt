-- ===== src/Scheduling/SchedulableStrategy.antt =====
-- pkg/scheduling/schedulable.go: at each round the strategy keeps one node with room schedulable.
pub mod Flags
pub mod Single
pub mod Switch
use target_exporter.Prelude.{
  Bool, true, false, String, none, some, List, [], ◌∷◌, Dict, lookup, insert, ◌==◌, if◌then◌else◌,
}
use target_exporter.Float.{Float64, num, gt}
use target_exporter.Outcome.{Outcome, ok, err, panic, Action, for_each, ◌>>=◌, ◌>>◌}
use target_exporter.World.{Env, St, within}
use target_exporter.Promclient.{NodeCpuUsage, get_current_cpu_diff}
use target_exporter.Scheduling.{Schedulable, set_schedulable}

module _ {F : Type 0} where
  -- The first schedulable node in the order of the range, or the empty text.
  unfoldable pub find_schedulable_node : Dict (Schedulable F) → String
  find_schedulable_node [] = ""
  find_schedulable_node ((k, v) ∷ m) =
      let rest = find_schedulable_node m in if v.schedulable then k else rest

module _ {F : Type 0} ⦃f : Float64 F⦄ where
  -- `t.schedulable[name].Set(b)`: the entry of an unknown node is a nil pointer.
  unfoldable pub mark : String → Bool → Action (Dict (Schedulable F)) (Unit {0})
  mark name b m = elim (lookup name m) [
    | none ↦ (panic, m)
    | some s ↦ (ok tt, insert name (set_schedulable b s) m)
  ]

  -- The range over `diffs` that marks the first node with a positive difference.
  unfoldable pub open_first : List (NodeCpuUsage F) → Action (Dict (Schedulable F)) (Unit {0})
  open_first [] m = (ok tt, m)
  open_first (v ∷ rest) m = elim v.usages [
    | [] ↦ (panic, m)
    | x ∷ _ ↦ elim (gt x (num 0)) [ true ↦ mark v.node_name true m | false ↦ open_first rest m ]
  ]

  -- The body of the range that looks at the schedulable node's own difference.
  unfoldable pub close_if_full :
      List (NodeCpuUsage F) → String → NodeCpuUsage F → Action (Dict (Schedulable F)) (Unit {0})
  close_if_full diffs node current m = elim (current.node_name == node) [
    | false ↦ (ok tt, m)
    | true ↦ elim current.usages [
      | [] ↦ (panic, m)
      | x ∷ _ ↦ elim (f.le x (num 0)) [
        | false ↦ (ok tt, m)
        | true ↦ (mark node false >> open_first diffs) m
      ]
    ]
  ]

  -- Reconcile after the query.
  unfoldable pub reconcile_diffs : List (NodeCpuUsage F) → Action (Dict (Schedulable F)) (Unit {0})
  reconcile_diffs diffs m =
      let node = find_schedulable_node m in
      elim (node == "") [
        | true ↦ open_first diffs m
        | false ↦ for_each diffs (close_if_full diffs node) m
      ]

  -- SchedulableStrategy.Stop, after the base strategy's: every node is marked schedulable.
  unfoldable pub mark_all : Dict (Schedulable F) → Dict (Schedulable F)
  mark_all [] = []
  mark_all ((k, v) ∷ m) = (k, set_schedulable true v) ∷ mark_all m

-- SchedulableStrategy.Reconcile. An error of the query is logged, and leaves `diffs` nil.
module _ {F Q : Type 0} ⦃f : Float64 F⦄ where
  unfoldable pub reconcile_answer :
      Outcome (List (NodeCpuUsage F)) → Action (St (Dict (Schedulable F)) Q) (Unit {0})
  reconcile_answer (ok diffs) st = within (reconcile_diffs diffs) st
  reconcile_answer (err e) st = within (reconcile_diffs []) st
  reconcile_answer panic st = (panic, st)

  unfoldable pub reconcile : Env F Q → Action (St (Dict (Schedulable F)) Q) (Unit {0})
  reconcile env st = let (answer, st') = get_current_cpu_diff env st in reconcile_answer answer st'
