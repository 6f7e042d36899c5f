-- ===== src/Kubeclient/Sorting.antt =====
-- The order of the jobs that DeletePendingWorkload looks at.
use target_exporter.Prelude.{◌≡◌, inl, inr, ◌⊎◌, List, [], ◌∷◌, ◌≤◌, arith, All, In}
use target_exporter.World.{Job, Time}
use target_exporter.Kubeclient.{insert_by_creation, sort_by_creation}

abbrev pub IsSorted : List Job → Type 0
IsSorted [] = Unit
IsSorted (j ∷ rest) = All (λ k. j.created ≤ k.created) rest × IsSorted rest

module _ (P : Job → Type 0) where
  All-insert : (j : Job) (xs : List Job) → P j → All P xs → All P (insert_by_creation j xs)
  unfolding insert_by_creation
  All-insert j [] p h = (p, tt)
  All-insert j (x ∷ xs) p h = ground (arith, All-insert j xs p h.1)

  insert-All : (j : Job) (xs : List Job) → All P (insert_by_creation j xs) → P j × All P xs
  unfolding insert_by_creation
  insert-All j [] h = h
  insert-All j (x ∷ xs) h = ground (arith, insert-All j xs)

  -- What holds of all sorted jobs holds of all jobs.
  pub sort-All : (xs : List Job) → All P (sort_by_creation xs) → All P xs
  unfolding sort_by_creation
  sort-All [] h = tt
  sort-All (x ∷ xs) h =
      let (p, rest) = insert-All x (sort_by_creation xs) h in (p, sort-All xs rest)

All-le_trans :
    (a b : Time) (xs : List Job) → a ≤ b → All (λ k. b ≤ k.created) xs → All (λ k. a ≤ k.created) xs
All-le_trans a b [] l h = tt
All-le_trans a b (x ∷ xs) l h = (omega arith, All-le_trans a b xs l h.1)

insert-IsSorted : (j : Job) (xs : List Job) → IsSorted xs → IsSorted (insert_by_creation j xs)
unfolding insert_by_creation
insert-IsSorted j [] h = (tt, tt)
insert-IsSorted j (x ∷ xs) h = ground (
  arith,
  All-insert (λ k. x.created ≤ k.created) j xs,
  All-le_trans j.created x.created xs,
  insert-IsSorted j xs h.1,
)

pub sort-IsSorted : (xs : List Job) → IsSorted (sort_by_creation xs)
unfolding sort_by_creation
sort-IsSorted [] = tt
sort-IsSorted (x ∷ xs) = insert-IsSorted x (sort_by_creation xs) (sort-IsSorted xs)

In-insert : (a j : Job) (xs : List Job) → In a (insert_by_creation j xs) → (a ≡ j) ⊎ In a xs
unfolding insert_by_creation
In-insert a j [] h = h
In-insert a j (x ∷ xs) h = ground (arith, In-insert a j xs)

pub In-sort : (a : Job) (xs : List Job) → In a (sort_by_creation xs) → In a xs
unfolding sort_by_creation
In-sort a [] h = h
In-sort a (x ∷ xs) h = elim (In-insert a x (sort_by_creation xs) h) [
  | inl e ↦ inl e
  | inr m ↦ inr (In-sort a xs m)
]
