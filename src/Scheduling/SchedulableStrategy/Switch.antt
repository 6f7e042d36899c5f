-- ===== src/Scheduling/SchedulableStrategy/Switch.antt =====
-- Which node is schedulable after a round: the exact result where the round opens a node, keeps the
-- schedulable one, or changes it for another.
use target_exporter.Prelude.{
  ◌≡◌, refl, ap, ◌⊎◌, Bool, true, false, String, some, List, [], ◌∷◌, Dict, lookup, insert,
  lookup-insert, eq_iff, arith, ◌==◌, ◌≢◌, ◌∙◌,
}
use target_exporter.Float.{Float64, num, gt}
use target_exporter.Outcome.{ok, for_each, and_then, ◌>>◌}
use target_exporter.Promclient.{NodeCpuUsage}
use target_exporter.Scheduling.{Schedulable, set_schedulable}
use target_exporter.Scheduling.SchedulableStrategy.{
  find_schedulable_node, mark, open_first, close_if_full, reconcile_diffs, mark_all,
}
use target_exporter.Scheduling.SchedulableStrategy.Flags.{AllClosed}

module _ {F : Type 0} ⦃f : Float64 F⦄ where
  -- `p` is the node of the first difference above 0, and no entry up to it lacks its data point.
  abbrev pub IsFirstRoom : String → List (NodeCpuUsage F) → Type 0
  IsFirstRoom p [] = ⊥
  IsFirstRoom p (v ∷ rest) =
      (x : F) × (xs : List F) × (v.usages ≡ x ∷ xs)
      × ((gt x (num 0) ≡ true) × (v.node_name ≡ p) ⊎ (gt x (num 0) ≡ false) × IsFirstRoom p rest)

  -- No entry is the node's.
  abbrev pub IsUnlisted : String → List (NodeCpuUsage F) → Type 0
  IsUnlisted n [] = Unit
  IsUnlisted n (v ∷ rest) = ((v.node_name == n) ≡ false) × IsUnlisted n rest

  -- One entry is the node's, and its difference is not above 0.
  abbrev pub IsFull : String → List (NodeCpuUsage F) → Type 0
  IsFull n [] = ⊥
  IsFull n (v ∷ rest) =
      ((v.node_name == n) ≡ false) × IsFull n rest
      ⊎ ((v.node_name == n) ≡ true)
        × ((x : F) × (xs : List F) × (v.usages ≡ x ∷ xs) × (f.le x (num 0) ≡ true))
        × IsUnlisted n rest

  -- Every entry of the node has a difference that is not at most 0.
  abbrev pub HasRoom : String → List (NodeCpuUsage F) → Type 0
  HasRoom n [] = Unit
  HasRoom n (v ∷ rest) =
      (((v.node_name == n) ≡ false)
        ⊎ ((x : F) × (xs : List F) × (v.usages ≡ x ∷ xs) × (f.le x (num 0) ≡ false)))
      × HasRoom n rest

  -- Every node is schedulable.
  abbrev pub AllOpen : Dict (Schedulable F) → Type 0
  AllOpen [] = Unit
  AllOpen ((k, v) ∷ m) = (v.schedulable ≡ true) × AllOpen m

  mark_all-AllOpen : (m : Dict (Schedulable F)) → AllOpen (mark_all m)
  unfolding mark_all set_schedulable
  mark_all-AllOpen [] = tt
  mark_all-AllOpen ((k, v) ∷ m) = (refl, mark_all-AllOpen m)

  open_first_lem :
      (p : String) (diffs : List (NodeCpuUsage F)) (m : Dict (Schedulable F))
      → IsFirstRoom p diffs
      → open_first diffs m ≡ mark p true m
  unfolding open_first
  open_first_lem p (v ∷ rest) m h = ground (arith, open_first_lem p rest m)
  open_first_lem p [] m h = absurd h

  find_of_AllClosed : (m : Dict (Schedulable F)) → AllClosed m → find_schedulable_node m ≡ ""
  unfolding find_schedulable_node
  find_of_AllClosed [] h = refl
  find_of_AllClosed ((k, v) ∷ m) h = ground (arith, find_of_AllClosed m h.1)

  for_each_of_IsUnlisted :
      (diffs : List (NodeCpuUsage F)) (n : String) (todo : List (NodeCpuUsage F))
      (m : Dict (Schedulable F))
      → IsUnlisted n todo
      → for_each todo (close_if_full diffs n) m ≡ (ok tt, m)
  unfolding close_if_full
  for_each_of_IsUnlisted diffs n [] m h = refl
  for_each_of_IsUnlisted diffs n (v ∷ todo) m h =
      ground (arith, for_each_of_IsUnlisted diffs n todo m h.1)

  for_each_of_HasRoom :
      (diffs : List (NodeCpuUsage F)) (n : String) (todo : List (NodeCpuUsage F))
      (m : Dict (Schedulable F))
      → HasRoom n todo
      → for_each todo (close_if_full diffs n) m ≡ (ok tt, m)
  unfolding close_if_full
  for_each_of_HasRoom diffs n [] m h = refl
  for_each_of_HasRoom diffs n (v ∷ todo) m h =
      ground (arith, for_each_of_HasRoom diffs n todo m h.1)

  for_each_of_IsFull :
      (diffs : List (NodeCpuUsage F)) (n : String) (todo : List (NodeCpuUsage F))
      (m m' : Dict (Schedulable F))
      → IsFull n todo
      → (mark n false >> open_first diffs) m ≡ (ok tt, m')
      → for_each todo (close_if_full diffs n) m ≡ (ok tt, m')
  unfolding close_if_full
  for_each_of_IsFull diffs n [] m m' h e = absurd h
  for_each_of_IsFull diffs n (v ∷ todo) m m' h e =
      ground (arith, for_each_of_IsFull diffs n todo m m', for_each_of_IsUnlisted diffs n todo m')

  mark_lem :
      (k : String) (b : Bool) (m : Dict (Schedulable F)) (s : Schedulable F)
      → lookup k m ≡ some s
      → mark k b m ≡ (ok tt, insert k (set_schedulable b s) m)
  unfolding mark
  mark_lem k b m s e = rw (e, mark)

  reconcile_diffs_found :
      (diffs : List (NodeCpuUsage F)) (m : Dict (Schedulable F))
      → (find_schedulable_node m == "") ≡ false
      → reconcile_diffs diffs m ≡ for_each diffs (close_if_full diffs (find_schedulable_node m)) m
  unfolding reconcile_diffs
  reconcile_diffs_found diffs m e = rw (e, reconcile_diffs)

  -- Where no node is schedulable, a round opens the first node with a difference above 0, and
  -- changes nothing else.
  pub reconcile_diffs-open :
      (diffs : List (NodeCpuUsage F)) (m : Dict (Schedulable F)) (p : String) (s : Schedulable F)
      → AllClosed m
      → IsFirstRoom p diffs
      → lookup p m ≡ some s
      → reconcile_diffs diffs m ≡ (ok tt, insert p (set_schedulable true s) m)
  unfolding reconcile_diffs
  reconcile_diffs-open diffs m p s closed room e =
      rw (find_of_AllClosed m closed, reconcile_diffs)
        (open_first_lem p diffs m room ∙ mark_lem p true m s e)

  -- While the schedulable node has room, a round changes nothing.
  pub reconcile_diffs-keep :
      (diffs : List (NodeCpuUsage F)) (m : Dict (Schedulable F))
      → find_schedulable_node m ≢ ""
      → HasRoom (find_schedulable_node m) diffs
      → reconcile_diffs diffs m ≡ (ok tt, m)
  unfolding reconcile_diffs
  reconcile_diffs-keep diffs m found room = ground (
    arith,
    eq_iff (find_schedulable_node m) "",
    for_each_of_HasRoom diffs (find_schedulable_node m) diffs m room,
  )

  -- When the schedulable node is full, a round closes it and opens the first node with a difference
  -- above 0, which is another one, and changes nothing else.
  pub reconcile_diffs-switch :
      (diffs : List (NodeCpuUsage F)) (m : Dict (Schedulable F)) (n p : String)
      (s t : Schedulable F)
      → find_schedulable_node m ≡ n
      → n ≢ ""
      → IsFull n diffs
      → IsFirstRoom p diffs
      → n ≢ p
      → lookup n m ≡ some s
      → lookup p m ≡ some t
      → reconcile_diffs diffs m
        ≡ (ok tt, insert p (set_schedulable true t) (insert n (set_schedulable false s) m))
  reconcile_diffs-switch diffs m n p s t found some_name full room other en ep =
      let m' = insert n (set_schedulable false s) m in
      let ep' : lookup p m' ≡ some t =
        lookup-insert n p (set_schedulable false s) m ∙ ground (arith, eq_iff n p) in
      let named : (n == "") ≡ false = ground (arith, eq_iff n "") in
      reconcile_diffs_found diffs m (rw found named)
      ∙ rw found (
          for_each_of_IsFull diffs n diffs m _ full (
            rw (mark_lem n false m s en, and_then)
              (open_first_lem p diffs m' room ∙ mark_lem p true m' t ep')))

  find_of_mark_all :
      (k : String) (s : Schedulable F) (m : Dict (Schedulable F))
      → find_schedulable_node (mark_all ((k, s) ∷ m)) ≡ k
  unfolding mark_all find_schedulable_node set_schedulable
  find_of_mark_all k s m = refl

  -- After Stop has marked every node, a round of the restarted strategy changes nothing as long as no
  -- difference of the first node, whose name is not empty, is at most 0: all nodes stay schedulable.
  pub mark_all-reconcile_diffs :
      (diffs : List (NodeCpuUsage F)) (k : String) (s : Schedulable F) (m : Dict (Schedulable F))
      → k ≢ ""
      → HasRoom k diffs
      → (reconcile_diffs diffs (mark_all ((k, s) ∷ m)) ≡ (ok tt, mark_all ((k, s) ∷ m)))
        × AllOpen (reconcile_diffs diffs (mark_all ((k, s) ∷ m))).1
  mark_all-reconcile_diffs diffs k s m named room =
      let same =
        reconcile_diffs-keep diffs (mark_all ((k, s) ∷ m)) (rw (find_of_mark_all k s m) named)
          (rw (find_of_mark_all k s m) room) in
      (same, rw (ap (λ r. r.1) same) (mark_all-AllOpen ((k, s) ∷ m)))
