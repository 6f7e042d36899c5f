-- ===== src/Infrastructure/Exporter/Kept.antt =====
-- What each part keeps of the two maps: their nodes, and that the gauges export the values.
use target_exporter.Prelude.{
  ◌≡◌, refl, ◌∙◌, ap, contains_key-insert, false, String, some, List, [], ◌∷◌, ◌++◌, Dict, lookup,
  insert, contains_key, keys, All, eq_iff, arith,
}

module _ {V : Type 0} (P : V → Type 0) where
  -- The map has these keys in this order, and every value satisfies the predicate.
  abbrev pub Holds : List String → Dict V → Type 0
  Holds ks m = (keys m ≡ ks) × All (λ e. P e.1) m

  keys-insert :
      (k : String) (v w : V) (m : Dict V) → lookup k m ≡ some w → keys (insert k v m) ≡ keys m
  keys-insert k v w [] h = cc
  keys-insert k v w ((j, u) ∷ m) h = ground (arith, keys-insert k v w m)

  All-insert :
      (k : String) (v : V) (m : Dict V) → P v → All (λ e. P e.1) m → All (λ e. P e.1) (insert k v m)
  All-insert k v [] p h = (p, tt)
  All-insert k v ((j, u) ∷ m) p h = ground (arith, All-insert k v m p h.1)

  pub insert-Holds :
      (ks : List String) (k : String) (v w : V) (m : Dict V)
      → lookup k m ≡ some w
      → P v
      → Holds ks m
      → Holds ks (insert k v m)
  insert-Holds ks k v w m e p (same, all) = (keys-insert k v w m e ∙ same, All-insert k v m p all)

  -- A new key comes at the end.
  pub insert-Holds_new :
      (ks : List String) (k : String) (v : V) (m : Dict V)
      → contains_key k m ≡ false
      → P v
      → Holds ks m
      → Holds (ks ++ (k ∷ [])) (insert k v m)
  insert-Holds_new ks k v m e p (same, all) =
      (keys_new k v m e ∙ ap (λ l. l ++ (k ∷ [])) same, All-insert k v m p all)
    where
      keys_new :
          (k : String) (v : V) (m : Dict V)
          → contains_key k m ≡ false
          → keys (insert k v m) ≡ keys m ++ (k ∷ [])
      keys_new k v [] h = refl
      keys_new k v ((j, u) ∷ m) h = ground (arith, keys_new k v m)

module _ {V W : Type 0} where
  -- The keys of the second map are not among those of the first.
  abbrev pub IsFresh : Dict V → Dict W → Type 0
  IsFresh m rest = All (λ e. contains_key e.0 m ≡ false) rest

  pub insert-IsFresh :
      (k : String) (v : V) (m : Dict V) (rest : Dict W)
      → contains_key k rest ≡ false
      → IsFresh m rest
      → IsFresh (insert k v m) rest
  insert-IsFresh k v m [] a h = tt
  insert-IsFresh k v m ((j, w) ∷ rest) a h =
      ground (arith, eq_iff j k, eq_iff k j, contains_key-insert k j v m, insert-IsFresh k v m rest)

module _ {W : Type 0} where
  pub empty-IsFresh : (V : Type 0) (rest : Dict W) → IsFresh {V = V} [] rest
  empty-IsFresh V [] = tt
  empty-IsFresh V (e ∷ rest) = (refl, empty-IsFresh V rest)
