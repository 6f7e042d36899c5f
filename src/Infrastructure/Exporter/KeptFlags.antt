-- ===== src/Infrastructure/Exporter/KeptFlags.antt =====
-- What each part keeps of the schedulable flags.
use target_exporter.Prelude.{
  ◌≡◌, refl, ◌∙◌, ap, sym, append-nil, append_assoc, inl, inr, Bool, true, false, String, List, [],
  ◌∷◌, ◌++◌, Dict, lookup, insert, keys, All, HasUniqueKeys, arith, Option-cases, if◌then◌else◌,
}
use target_exporter.Float.{Float64, num}
use target_exporter.Outcome.{Outcome, ok, err, panic, and_then_keeps, for_each_keeps, ◌>>◌}
use target_exporter.World.{Env, St}
use target_exporter.Promclient.{NodeCpuUsage, get_current_cpu_diff}
use target_exporter.Promclient.Samples.{get_current_cpu_diff-own}
use target_exporter.Scheduling.{Schedulable, set_schedulable}
use target_exporter.Scheduling.SchedulableStrategy
use target_exporter.Scheduling.SchedulableStrategy.{
  find_schedulable_node, mark, open_first, close_if_full, reconcile_diffs, reconcile_answer,
  mark_all,
}
use target_exporter.Scheduling.SchedulableStrategy.Flags.{AllClosed}
use target_exporter.Infrastructure.Exporter.{export_schedulable}
use target_exporter.Infrastructure.Exporter.Kept.{
  Holds, IsFresh, insert-Holds, insert-Holds_new, insert-IsFresh,
}

module _ {F : Type 0} ⦃f : Float64 F⦄ where
  -- The gauge exports the flag, as 1 or 0.
  abbrev pub IsShown : Schedulable F → Type 0
  IsShown s = s.gauge ≡ (if s.schedulable then num 1 else num 0)

  pub export_schedulable-Holds :
      (config : Dict F) (ks : List String) (m : Dict (Schedulable F))
      → HasUniqueKeys config
      → IsFresh m config
      → Holds IsShown ks m
      → Holds IsShown (ks ++ keys config) (export_schedulable config m)
  unfolding export_schedulable
  export_schedulable-Holds [] ks m u h (same, all) = (same ∙ sym (append-nil ks), all)
  export_schedulable-Holds ((k, x) ∷ rest) ks m u h holds =
      let s : Schedulable F = record { schedulable = false; gauge = num 0 } in
      rw (sym (append_assoc ks (k ∷ []) (keys rest))) (
        export_schedulable-Holds rest (ks ++ (k ∷ [])) (insert k s m) u.1
          (insert-IsFresh k s m rest u.0 h.1) (insert-Holds_new IsShown ks k s m h.0 refl holds))

  pub export_schedulable-AllClosed :
      (config : Dict F) (m : Dict (Schedulable F))
      → AllClosed m
      → AllClosed (export_schedulable config m)
  unfolding export_schedulable
  export_schedulable-AllClosed [] m h = h
  export_schedulable-AllClosed ((k, x) ∷ rest) m h =
      export_schedulable-AllClosed rest _ (insert_closed k m h)
    where
      insert_closed :
          (k : String) (m : Dict (Schedulable F))
          → AllClosed m
          → AllClosed (insert k (record { schedulable = false; gauge = num 0 }) m)
      insert_closed k [] h = (refl, tt)
      insert_closed k ((j, s) ∷ m) h = ground (arith, insert_closed k m h.1)

  mark-Holds :
      (ks : List String) (k : String) (b : Bool) (m : Dict (Schedulable F))
      → Holds IsShown ks m
      → Holds IsShown ks (mark k b m).1
  unfolding mark set_schedulable
  mark-Holds ks k b m h = elim (Option-cases (lookup k m)) [
    | inl e ↦ rw (e, mark) h
    | inr (s, e) ↦ rw (e, mark) (insert-Holds IsShown ks k (set_schedulable b s) s m e refl h)
  ]

  open_first-Holds :
      (ks : List String) (diffs : List (NodeCpuUsage F)) (m : Dict (Schedulable F))
      → Holds IsShown ks m
      → Holds IsShown ks (open_first diffs m).1
  unfolding open_first
  open_first-Holds ks [] m h = h
  open_first-Holds ks (v ∷ rest) m h =
      ground (arith, mark-Holds ks v.node_name true m h, open_first-Holds ks rest m h)

  close_if_full-Holds :
      (ks : List String) (diffs : List (NodeCpuUsage F)) (node : String) (current : NodeCpuUsage F)
      (m : Dict (Schedulable F))
      → Holds IsShown ks m
      → Holds IsShown ks (close_if_full diffs node current m).1
  unfolding close_if_full
  close_if_full-Holds ks diffs node current m h =
      let swapped : Holds IsShown ks ((mark node false >> open_first diffs) m).1 =
        and_then_keeps (Holds IsShown ks) (mark node false m).0 (λ _. open_first diffs)
          (mark node false m).1 (mark-Holds ks node false m h)
          (λ _ m' h'. open_first-Holds ks diffs m' h') in
      ground (arith, swapped)

  reconcile_diffs-Holds :
      (ks : List String) (diffs : List (NodeCpuUsage F)) (m : Dict (Schedulable F))
      → Holds IsShown ks m
      → Holds IsShown ks (reconcile_diffs diffs m).1
  unfolding reconcile_diffs
  reconcile_diffs-Holds ks diffs m h =
      let node = find_schedulable_node m in
      ground (
        arith,
        open_first-Holds ks diffs m h,
        for_each_keeps (Holds IsShown ks) diffs (close_if_full diffs node)
            (λ v m' h'. close_if_full-Holds ks diffs node v m' h') m h,
      )

  pub mark_all-Holds :
      (ks : List String) (m : Dict (Schedulable F))
      → Holds IsShown ks m
      → Holds IsShown ks (mark_all m)
  unfolding mark_all set_schedulable
  mark_all-Holds ks m (same, all) = (same_keys m ∙ same, shown m)
    where
      same_keys : (m : Dict (Schedulable F)) → keys (mark_all m) ≡ keys m
      same_keys [] = refl
      same_keys ((k, s) ∷ m) = ap (λ l. k ∷ l) (same_keys m)

      shown : (m : Dict (Schedulable F)) → All (λ e. IsShown e.1) (mark_all m)
      shown [] = tt
      shown ((k, s) ∷ m) = (refl, shown m)

  reconcile_answer-Holds :
      {Q : Type 0} (ks : List String) (answer : Outcome (List (NodeCpuUsage F)))
      (st : St (Dict (Schedulable F)) Q)
      → Holds IsShown ks st.own
      → Holds IsShown ks (reconcile_answer answer st).1.own
  unfolding reconcile_answer
  reconcile_answer-Holds ks (ok diffs) st h = reconcile_diffs-Holds ks diffs st.own h
  reconcile_answer-Holds ks (err t) st h = reconcile_diffs-Holds ks [] st.own h
  reconcile_answer-Holds ks panic st h = h

-- A round of the schedulable strategy.
pub schedule-Holds :
    {F Q : Type 0} ⦃f : Float64 F⦄ (env : Env F Q) (ks : List String)
    (st : St (Dict (Schedulable F)) Q)
    → Holds IsShown ks st.own
    → Holds IsShown ks (SchedulableStrategy.reconcile env st).1.own
unfolding SchedulableStrategy.reconcile
schedule-Holds env ks st h =
    reconcile_answer-Holds ks (get_current_cpu_diff env st).0 (get_current_cpu_diff env st).1
      (rw (get_current_cpu_diff-own env st) h)
