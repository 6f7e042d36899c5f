-- ===== src/Scheduling/SelfDriving/Entries.antt =====
-- The entries of the maps that getViolatingPodsDelta fills with one value for each pod.
use target_exporter.Prelude.{
  ◌≡◌, refl, sym, ap, subst, inl, inr, true, String, List, [], ◌∷◌, Dict, insert, contains_key,
  contains_key-insert, In, All, ◌==◌, eq_iff, Bool-cases, arith,
}
use target_exporter.World.{Pod}
use target_exporter.Scheduling.SelfDriving.Delta.{simple_deltas, even_deltas}

pub insert-All_entries :
    {V : Type 0} (P : String × V → Type 0) (k : String) (v : V) (m : Dict V)
    → P (k, v)
    → All P m
    → All P (insert k v m)
insert-All_entries P k v [] p h = (p, tt)
insert-All_entries P k v ((j, w) ∷ m) p h = elim (Bool-cases (j == k)) [
  | inl e ↦ rw e (subst (λ i. P (i, v)) (sym ((eq_iff j k).0 e)) p, h.1)
  | inr e ↦ rw e (h.0, insert-All_entries P k v m p h.1)
]

same_entry : {V : Type 0} (v : V) (i j : String) → i ≡ j → ◌≡◌ {A = String × V} (i, v) (j, v)
same_entry v i j e = ap (λ n. (n, v)) e

insert-In : {V : Type 0} (k : String) (v : V) (m : Dict V) → In (k, v) (insert k v m)
insert-In k v [] = inl refl
insert-In k v ((j, w) ∷ m) = elim (Bool-cases (j == k)) [
  | inl e ↦ rw e (inl (same_entry v k j (sym ((eq_iff j k).0 e))))
  | inr e ↦ rw e (inr (insert-In k v m))
]

-- Writing the same value again keeps the entries with that value.
insert-keeps :
    {V : Type 0} (i k : String) (v : V) (m : Dict V) → In (i, v) m → In (i, v) (insert k v m)
insert-keeps i k v [] at = absurd at
insert-keeps i k v ((j, w) ∷ m) (inl is) = elim (Bool-cases (j == k)) [
  | inl e ↦ rw e (inl (let same : i ≡ j = cc in same_entry v i j same))
  | inr e ↦ rw e (inl is)
]
insert-keeps i k v ((j, w) ∷ m) (inr at) = elim (Bool-cases (j == k)) [
  | inl e ↦ rw e (inr at)
  | inr e ↦ rw e (inr (insert-keeps i k v m at))
]

module _ {F Q : Type 0} where
  even_deltas_lem :
      (d : F) (pods : List (Pod Q)) (m : Dict F) → even_deltas d pods m ≡ simple_deltas d pods m
  unfolding even_deltas simple_deltas
  even_deltas_lem d [] m = refl
  even_deltas_lem d (pod ∷ rest) m = even_deltas_lem d rest (insert pod.name d m)

  pub simple_deltas-All :
      (P : String × F → Type 0) (d : F) (pods : List (Pod Q)) (m : Dict F)
      → All (λ pod. P (pod.name, d)) pods
      → All P m
      → All P (simple_deltas d pods m)
  unfolding simple_deltas
  simple_deltas-All P d [] m i h = h
  simple_deltas-All P d (pod ∷ rest) m i h =
      simple_deltas-All P d rest (insert pod.name d m) i.1 (insert-All_entries P pod.name d m i.0 h)

  simple_deltas-keeps :
      (i : String) (d : F) (pods : List (Pod Q)) (m : Dict F)
      → In (i, d) m
      → In (i, d) (simple_deltas d pods m)
  unfolding simple_deltas
  simple_deltas-keeps i d [] m at = at
  simple_deltas-keeps i d (pod ∷ rest) m at =
      simple_deltas-keeps i d rest (insert pod.name d m) (insert-keeps i pod.name d m at)

  pub simple_deltas-In :
      (d : F) (pods : List (Pod Q)) (m : Dict F)
      → All (λ pod. In (pod.name, d) (simple_deltas d pods m)) pods
  unfolding simple_deltas
  simple_deltas-In d [] m = tt
  simple_deltas-In d (pod ∷ rest) m = (
    simple_deltas-keeps pod.name d rest (insert pod.name d m) (insert-In pod.name d m),
    simple_deltas-In d rest (insert pod.name d m),
  )

  simple_deltas-contains_key :
      (i : String) (d : F) (pods : List (Pod Q)) (m : Dict F)
      → contains_key i m ≡ true
      → contains_key i (simple_deltas d pods m) ≡ true
  unfolding simple_deltas
  simple_deltas-contains_key i d [] m h = h
  simple_deltas-contains_key i d (pod ∷ rest) m h =
      simple_deltas-contains_key i d rest (insert pod.name d m)
        (ground (arith, contains_key-insert pod.name i d m))

  pub even_deltas-All :
      (P : String × F → Type 0) (d : F) (pods : List (Pod Q)) (m : Dict F)
      → All (λ pod. P (pod.name, d)) pods
      → All P m
      → All P (even_deltas d pods m)
  even_deltas-All P d pods m i h = rw (even_deltas_lem d pods m) (simple_deltas-All P d pods m i h)

  pub even_deltas-In :
      (d : F) (pods : List (Pod Q)) (m : Dict F)
      → All (λ pod. In (pod.name, d) (even_deltas d pods m)) pods
  even_deltas-In d pods m = rw (even_deltas_lem d pods m) (simple_deltas-In d pods m)

  pub even_deltas-contains_key :
      (i : String) (d : F) (pods : List (Pod Q)) (m : Dict F)
      → contains_key i m ≡ true
      → contains_key i (even_deltas d pods m) ≡ true
  even_deltas-contains_key i d pods m h =
      rw (even_deltas_lem d pods m) (simple_deltas-contains_key i d pods m h)
