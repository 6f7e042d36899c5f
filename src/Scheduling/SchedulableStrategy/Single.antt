-- ===== src/Scheduling/SchedulableStrategy/Single.antt =====
-- At most one node is schedulable: what each step of the strategy keeps.
use target_exporter.Prelude.{
  ◌≡◌, refl, ◌⊎◌, inl, inr, true, false, String, List, [], ◌∷◌, Dict, contains_key, HasUniqueKeys,
  eq_iff, arith, ◌==◌,
}
use target_exporter.Float.{Float64, num, gt}
use target_exporter.Outcome.{Outcome, ok, err, panic, for_each, and_then, ◌>>◌}
use target_exporter.World.{Env, St}
use target_exporter.Promclient.{NodeCpuUsage, get_current_cpu_diff}
use target_exporter.Promclient.Samples.{get_current_cpu_diff-own}
use target_exporter.Scheduling.{Schedulable}
use target_exporter.Scheduling.SchedulableStrategy.{
  find_schedulable_node, mark, open_first, close_if_full, reconcile_diffs, reconcile_answer,
  reconcile,
}
use target_exporter.Scheduling.SchedulableStrategy.Flags.{
  Only, AtMostOne, AllClosed, AllClosed-Only, mark-HasUniqueKeys, mark-Only_self, mark-false-Only,
  mark-false-AllClosed,
}

module _ {F : Type 0} ⦃f : Float64 F⦄ where
  -- The node that `open_first` finds, if there is one.
  abbrev first_open : List (NodeCpuUsage F) → String
  first_open [] = ""
  first_open (v ∷ rest) = elim v.usages [
    | [] ↦ ""
    | x ∷ _ ↦ elim (gt x (num 0)) [ true ↦ v.node_name | false ↦ first_open rest ]
  ]

  -- What holds between two entries of the range over `diffs`.
  record Between (node : String) (diffs : List (NodeCpuUsage F)) (m : Dict (Schedulable F))
      : Type 0 where
    unique : HasUniqueKeys m
    single : Only node m ⊎ Only (first_open diffs) m

  Between→AtMostOne :
      (node : String) (diffs : List (NodeCpuUsage F)) (m : Dict (Schedulable F))
      → Between node diffs m
      → HasUniqueKeys m × AtMostOne m
  Between→AtMostOne node diffs m b =
      (b.unique, elim b.single [ inl h ↦ (node, h) | inr h ↦ (first_open diffs, h) ])

  -- `open_first` changes nothing, or marks the first node with room.
  open_first_cases :
      (diffs : List (NodeCpuUsage F)) (m : Dict (Schedulable F))
      → ((open_first diffs m).1 ≡ m) ⊎ ((open_first diffs m).1 ≡ (mark (first_open diffs) true m).1)
  unfolding open_first
  open_first_cases [] m = inl refl
  open_first_cases (v ∷ rest) m = ground (arith, open_first_cases rest m)

  open_first-Between :
      (node : String) (diffs : List (NodeCpuUsage F)) (m : Dict (Schedulable F))
      → HasUniqueKeys m
      → Only (first_open diffs) m
      → Between node diffs (open_first diffs m).1
  open_first-Between node diffs m u h = elim (open_first_cases diffs m) [
    | inl e ↦ rw e (record { unique = u; single = inr h })
    | inr e ↦ rw e (record {
      unique = mark-HasUniqueKeys (first_open diffs) true m u;
      single = inr (mark-Only_self (first_open diffs) true m h);
    })
  ]

  then-Between :
      (node : String) (diffs : List (NodeCpuUsage F)) (o : Outcome (Unit {0}))
      (m : Dict (Schedulable F))
      → Between node diffs m
      → (o ≡ ok tt → Only (first_open diffs) m)
      → Between node diffs (and_then o (λ _. open_first diffs) m).1
  then-Between node diffs (ok _) m b h = open_first-Between node diffs m b.unique (h refl)
  then-Between node diffs (err e) m b h = b
  then-Between node diffs panic m b h = b

  -- The node is closed, and then another one is opened.
  swap-Between :
      (node : String) (diffs : List (NodeCpuUsage F)) (m : Dict (Schedulable F))
      → Between node diffs m
      → Between node diffs ((mark node false >> open_first diffs) m).1
  swap-Between node diffs m b =
      then-Between node diffs (mark node false m).0 (mark node false m).1
        (record {
          unique = mark-HasUniqueKeys node false m b.unique;
          single = elim b.single [
            | inl h ↦ inl (mark-Only_self node false m h)
            | inr h ↦ inr (mark-false-Only node (first_open diffs) m h)
          ];
        })
        λ done. elim b.single [
          | inl h ↦
              AllClosed-Only (first_open diffs) (mark node false m).1
                (mark-false-AllClosed node m b.unique h done)
          | inr h ↦ mark-false-Only node (first_open diffs) m h
        ]

  close_if_full-Between :
      (diffs : List (NodeCpuUsage F)) (node : String) (current : NodeCpuUsage F)
      (m : Dict (Schedulable F))
      → Between node diffs m
      → Between node diffs (close_if_full diffs node current m).1
  unfolding close_if_full
  close_if_full-Between diffs node current m b = ground (arith, swap-Between node diffs m b)

  for_each-Between :
      (diffs : List (NodeCpuUsage F)) (node : String) (todo : List (NodeCpuUsage F))
      (m : Dict (Schedulable F))
      → Between node diffs m
      → Between node diffs (for_each todo (close_if_full diffs node) m).1
  for_each-Between diffs node [] m b = b
  for_each-Between diffs node (v ∷ todo) m b = ground (
    arith,
    close_if_full-Between diffs node v m b,
    for_each-Between diffs node todo (close_if_full diffs node v m).1,
  )

  -- The node that is found is the only one, and none is found only if there is none.
  find-Only :
      (k : String) (m : Dict (Schedulable F))
      → Only k m
      → contains_key "" m ≡ false
      → let node = find_schedulable_node m in
        (((node == "") ≡ true) × AllClosed m) ⊎ (((node == "") ≡ false) × (node ≡ k))
  unfolding find_schedulable_node
  find-Only k [] h e = inl (refl, tt)
  find-Only k ((j, v) ∷ m) h e = ground (arith, eq_iff j "", find-Only k m h.1)

  reconcile_diffs-AtMostOne :
      (diffs : List (NodeCpuUsage F)) (m : Dict (Schedulable F))
      → HasUniqueKeys m
      → contains_key "" m ≡ false
      → AtMostOne m
      → HasUniqueKeys (reconcile_diffs diffs m).1 × AtMostOne (reconcile_diffs diffs m).1
  unfolding reconcile_diffs
  reconcile_diffs-AtMostOne diffs m u e (k, h) = elim (find-Only k m h e) [
    | inl (absent, closed) ↦
        rw (absent, reconcile_diffs)
          (Between→AtMostOne "" diffs _
            (open_first-Between "" diffs m u (AllClosed-Only (first_open diffs) m closed)))
    | inr (present, same) ↦
        rw (present, reconcile_diffs)
          (Between→AtMostOne _ diffs _ (
            for_each-Between diffs (find_schedulable_node m) diffs m
              (record { unique = u; single = inl (rw same h) })))
  ]

  reconcile_answer-AtMostOne :
      {Q : Type 0} (answer : Outcome (List (NodeCpuUsage F))) (st : St (Dict (Schedulable F)) Q)
      → HasUniqueKeys st.own
      → contains_key "" st.own ≡ false
      → AtMostOne st.own
      → HasUniqueKeys (reconcile_answer answer st).1.own
        × AtMostOne (reconcile_answer answer st).1.own
  unfolding reconcile_answer
  reconcile_answer-AtMostOne (ok diffs) st u e h = reconcile_diffs-AtMostOne diffs st.own u e h
  reconcile_answer-AtMostOne (err t) st u e h = reconcile_diffs-AtMostOne [] st.own u e h
  reconcile_answer-AtMostOne panic st u e h = (u, h)

-- A round of the schedulable strategy keeps at most one node schedulable, whatever the query
-- answers and also when it ends in a panic, provided that the nodes have different names that are
-- not empty.
pub reconcile-AtMostOne :
    {F Q : Type 0} ⦃f : Float64 F⦄ (env : Env F Q) (st : St (Dict (Schedulable F)) Q)
    → HasUniqueKeys st.own
    → contains_key "" st.own ≡ false
    → AtMostOne st.own
    → HasUniqueKeys (reconcile env st).1.own × AtMostOne (reconcile env st).1.own
unfolding reconcile
reconcile-AtMostOne env st u e h =
    let own = get_current_cpu_diff-own env st in
    reconcile_answer-AtMostOne (get_current_cpu_diff env st).0 (get_current_cpu_diff env st).1
      (rw own u) (rw own e) (rw own h)
