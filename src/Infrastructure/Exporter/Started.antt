-- ===== src/Infrastructure/Exporter/Started.antt =====
-- What StartMetrics makes of the configuration.
use target_exporter.Prelude.{
  ◌≡◌, refl, sym, ap, ◌∙◌, append_assoc, append-nil, false, String, [], ◌∷◌, ◌++◌, Dict, map,
  insert, contains_key, HasUniqueKeys, arith,
}
use target_exporter.Float.{Float64, num}
use target_exporter.Scheduling.{Target, Schedulable}
use target_exporter.Infrastructure.Exporter.{
  new_target_exporter, load_targets, export_schedulable, start_metrics,
}
use target_exporter.Infrastructure.Exporter.Kept.{IsFresh, insert-IsFresh, empty-IsFresh}

insert_new :
    {V : Type 0} (k : String) (v : V) (m : Dict V)
    → contains_key k m ≡ false
    → insert k v m ≡ m ++ ((k, v) ∷ [])
insert_new k v [] h = refl
insert_new k v ((j, w) ∷ m) h = ground (arith, insert_new k v m)

abbrev pub exported_targets : {F : Type 0} → Dict F → Dict (Target F)
exported_targets config = map (λ (k, x). (k, record { target = x; gauge = x })) config

load_targets-exported_targets :
    {F : Type 0} (config : Dict F) (m : Dict (Target F))
    → HasUniqueKeys config
    → IsFresh m config
    → load_targets config m ≡ m ++ exported_targets config
unfolding load_targets
load_targets-exported_targets [] m u h = sym (append-nil m)
load_targets-exported_targets ((k, x) ∷ rest) m u h =
    let t : Target _ = record { target = x; gauge = x } in
    load_targets-exported_targets rest (insert k t m) u.1 (insert-IsFresh k t m rest u.0 h.1)
    ∙ (ap (λ l. l ++ exported_targets rest) (insert_new k t m h.0)
        ∙ append_assoc m ((k, t) ∷ []) (exported_targets rest))

module _ {F : Type 0} ⦃f : Float64 F⦄ where
  abbrev pub closed_flags : Dict F → Dict (Schedulable F)
  closed_flags config = map (λ (k, x). (k, record { schedulable = false; gauge = num 0 })) config

  export_schedulable-closed_flags :
      (config : Dict F) (m : Dict (Schedulable F))
      → HasUniqueKeys config
      → IsFresh m config
      → export_schedulable config m ≡ m ++ closed_flags config
  unfolding export_schedulable
  export_schedulable-closed_flags [] m u h = sym (append-nil m)
  export_schedulable-closed_flags ((k, x) ∷ rest) m u h =
      let s : Schedulable F = record { schedulable = false; gauge = num 0 } in
      export_schedulable-closed_flags rest (insert k s m) u.1 (insert-IsFresh k s m rest u.0 h.1)
      ∙ (ap (λ l. l ++ closed_flags rest) (insert_new k s m h.0)
          ∙ append_assoc m ((k, s) ∷ []) (closed_flags rest))

  -- For configured nodes with different names, the loops of StartMetrics, which fill the two maps entry
  -- by entry, come to a map over the configuration: each target is the configured one and exported,
  -- and each flag is false with its gauge at 0.
  pub start_metrics_lem :
      {Q : Type 0} (config : Dict F)
      → HasUniqueKeys config
      → start_metrics config (new_target_exporter {F = F} {Q = Q})
        ≡ record { targets = exported_targets config; schedulable = closed_flags config; log = [] }
  unfolding start_metrics
  start_metrics_lem config u =
      rw (load_targets-exported_targets config [] u (empty-IsFresh (Target F) config)) (
        rw (export_schedulable-closed_flags config [] u (empty-IsFresh (Schedulable F) config))
          refl)
