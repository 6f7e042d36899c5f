-- ===== src/Scheduling/SchedulableStrategy/Flags.antt =====
-- Which nodes are schedulable, and what marking a node does to that.
use target_exporter.Prelude.{
  ◌≡◌, inl, inr, Bool, true, false, String, some, [], ◌∷◌, Dict, lookup, insert, contains_key,
  HasUniqueKeys, insert-HasUniqueKeys, eq_iff, arith, Bool-cases, Option-cases,
}
use target_exporter.Float.{Float64}
use target_exporter.Outcome.{ok}
use target_exporter.Scheduling.{Schedulable, set_schedulable}
use target_exporter.Scheduling.SchedulableStrategy.{mark}

module _ {F : Type 0} where
  -- No node but `k` is schedulable.
  abbrev pub Only : String → Dict (Schedulable F) → Type 0
  Only k [] = Unit
  Only k ((j, v) ∷ m) = (v.schedulable ≡ true → j ≡ k) × Only k m

  abbrev pub AtMostOne : Dict (Schedulable F) → Type 0
  AtMostOne m = (k : String) × Only k m

  -- No node is schedulable.
  abbrev pub AllClosed : Dict (Schedulable F) → Type 0
  AllClosed [] = Unit
  AllClosed ((j, v) ∷ m) = (v.schedulable ≡ false) × AllClosed m

  pub AllClosed-Only : (k : String) (m : Dict (Schedulable F)) → AllClosed m → Only k m
  AllClosed-Only k [] h = tt
  AllClosed-Only k ((j, v) ∷ m) h = ground (arith, AllClosed-Only k m h.1)

  pub insert-Only_self :
      (k : String) (s : Schedulable F) (m : Dict (Schedulable F)) → Only k m → Only k (insert k s m)
  insert-Only_self k s [] h = ground arith
  insert-Only_self k s ((j, v) ∷ m) h = ground (arith, eq_iff j k, insert-Only_self k s m h.1)

  -- Without the key there is nobody left.
  pub Only-AllClosed :
      (k : String) (m : Dict (Schedulable F)) → contains_key k m ≡ false → Only k m → AllClosed m
  Only-AllClosed k [] a h = tt
  Only-AllClosed k ((j, v) ∷ m) a h =
      ground (arith, eq_iff j k, Only-AllClosed k m, Bool-cases v.schedulable)

module _ {F : Type 0} ⦃f : Float64 F⦄ where
  -- Closing the only schedulable node closes all.
  pub close-AllClosed :
      (k : String) (s : Schedulable F) (m : Dict (Schedulable F))
      → HasUniqueKeys m
      → Only k m
      → lookup k m ≡ some s
      → AllClosed (insert k (set_schedulable false s) m)
  unfolding set_schedulable
  close-AllClosed k s [] u h e = ground arith
  close-AllClosed k s ((j, v) ∷ m) u h e = ground (
    arith,
    eq_iff j k,
    Only-AllClosed k m,
    close-AllClosed k s m u.1 h.1,
    Bool-cases v.schedulable,
  )

  -- Closing any node keeps what was so.
  pub close-Only :
      (k p : String) (s : Schedulable F) (m : Dict (Schedulable F))
      → Only p m
      → Only p (insert k (set_schedulable false s) m)
  unfolding set_schedulable
  close-Only k p s [] h = ground arith
  close-Only k p s ((j, v) ∷ m) h = ground (arith, eq_iff j k, close-Only k p s m h.1)

  pub mark-HasUniqueKeys :
      (k : String) (b : Bool) (m : Dict (Schedulable F))
      → HasUniqueKeys m
      → HasUniqueKeys (mark k b m).1
  unfolding mark
  mark-HasUniqueKeys k b m h = elim (Option-cases (lookup k m)) [
    | inl e ↦ rw (e, mark) h
    | inr (s, e) ↦ rw (e, mark) (insert-HasUniqueKeys k (set_schedulable b s) m h)
  ]

  pub mark-Only_self :
      (k : String) (b : Bool) (m : Dict (Schedulable F)) → Only k m → Only k (mark k b m).1
  unfolding mark
  mark-Only_self k b m h = elim (Option-cases (lookup k m)) [
    | inl e ↦ rw (e, mark) h
    | inr (s, e) ↦ rw (e, mark) (insert-Only_self k (set_schedulable b s) m h)
  ]

  pub mark-false-Only :
      (k p : String) (m : Dict (Schedulable F)) → Only p m → Only p (mark k false m).1
  unfolding mark
  mark-false-Only k p m h = elim (Option-cases (lookup k m)) [
    | inl e ↦ rw (e, mark) h
    | inr (s, e) ↦ rw (e, mark) (close-Only k p s m h)
  ]

  pub mark-false-AllClosed :
      (k : String) (m : Dict (Schedulable F))
      → HasUniqueKeys m
      → Only k m
      → (mark k false m).0 ≡ ok tt
      → AllClosed (mark k false m).1
  unfolding mark
  mark-false-AllClosed k m u h done = elim (Option-cases (lookup k m)) [
    | inl e ↦ absurd (ground arith)
    | inr (s, e) ↦ rw (e, mark) (close-AllClosed k s m u h e)
  ]
