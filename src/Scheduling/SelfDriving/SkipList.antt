-- ===== src/Scheduling/SelfDriving/SkipList.antt =====
-- refreshSkiplist, which removes by an index of the list that it started with.
use target_exporter.Prelude.{
  ℕ, zero, suc, ◌+◌, ◌≤◌, ◌<◌, ◌≡◌, refl, inl, inr, ap, sym, ◌∙◌, append_assoc, true, false, List,
  [], ◌∷◌, ◌++◌, All, length, length-append, arith, Bool-cases,
}
use native.Mathlib.Decide.{dec_lt}
use target_exporter.Outcome.{ok, panic}
use target_exporter.World.{Time, Pod}
use target_exporter.Scheduling.SelfDriving.{SkipItem, is_expired, remove_index, refresh_from}

module _ {Q : Type 0} (now : Time) (pods : List (Pod Q)) where
  -- No item has expired.
  abbrev pub AllCurrent : List (SkipItem Q) → Type 0
  AllCurrent items = All (λ item. is_expired now pods item ≡ false) items

  refresh_miss :
      (i : ℕ) (item : SkipItem Q) (rest current : List (SkipItem Q))
      → is_expired now pods item ≡ false
      → refresh_from now pods i (item ∷ rest) current ≡ refresh_from now pods (suc i) rest current
  unfolding refresh_from
  refresh_miss i item rest current e = rw (e, refresh_from)

  refresh_hit :
      (i : ℕ) (item : SkipItem Q) (rest current : List (SkipItem Q))
      → is_expired now pods item ≡ true
      → i < length current
      → refresh_from now pods i (item ∷ rest) current
        ≡ refresh_from now pods (suc i) rest (remove_index current i)
  unfolding refresh_from
  refresh_hit i item rest current e h = ground arith

  refresh_beyond :
      (i : ℕ) (item : SkipItem Q) (rest current : List (SkipItem Q))
      → is_expired now pods item ≡ true
      → length current ≤ i
      → (refresh_from now pods i (item ∷ rest) current).0 ≡ panic
  unfolding refresh_from
  refresh_beyond i item rest current e h = ground arith

  refresh_keep :
      (i : ℕ) (items current : List (SkipItem Q))
      → AllCurrent items
      → refresh_from now pods i items current ≡ (ok tt, current)
  unfolding refresh_from
  refresh_keep i [] current h = refl
  refresh_keep i (item ∷ rest) current h = ground (arith, refresh_keep (suc i) rest current h.1)

  -- The range passes over items that have not expired.
  refresh_skip :
      (i : ℕ) (before rest current : List (SkipItem Q))
      → AllCurrent before
      → refresh_from now pods i (before ++ rest) current
        ≡ refresh_from now pods (i + length before) rest current
  refresh_skip i [] rest current h =
      ap (λ (k : ℕ). refresh_from now pods k rest current) (omega arith)
  refresh_skip i (item ∷ before) rest current h =
      refresh_miss i item (before ++ rest) current h.0
      ∙ (refresh_skip (suc i) before rest current h.1
          ∙ ap (λ (k : ℕ). refresh_from now pods k rest current) (omega arith))

  remove_index_middle :
      (before : List (SkipItem Q)) (item : SkipItem Q) (rest : List (SkipItem Q))
      → remove_index (before ++ (item ∷ rest)) (length before) ≡ before ++ rest
  unfolding remove_index
  remove_index_middle [] item rest = refl
  remove_index_middle (x ∷ before) item rest =
      ap (λ l. x ∷ l) (remove_index_middle before item rest)

  length-remove_index-le :
      (items : List (SkipItem Q)) (i : ℕ) → length (remove_index items i) ≤ length items
  unfolding remove_index
  length-remove_index-le [] zero = omega arith
  length-remove_index-le [] (suc i) = omega arith
  length-remove_index-le (x ∷ items) zero = omega arith
  length-remove_index-le (x ∷ items) (suc i) = omega (arith, length-remove_index-le items i)

  -- The first expired item, wherever it stands, is removed.
  refresh_first :
      (before after : List (SkipItem Q)) (item : SkipItem Q)
      → AllCurrent before
      → is_expired now pods item ≡ true
      → refresh_from now pods 0 (before ++ (item ∷ after)) (before ++ (item ∷ after))
        ≡ refresh_from now pods (suc (0 + length before)) after (before ++ after)
  refresh_first before after item hb e =
      refresh_skip 0 before (item ∷ after) (before ++ (item ∷ after)) hb
      ∙ (refresh_hit (0 + length before) item after (before ++ (item ∷ after)) e
            (omega (arith, length-append before (item ∷ after)))
          ∙ ap (refresh_from now pods (suc (0 + length before)) after) (
              ap (remove_index (before ++ (item ∷ after))) (omega arith)
              ∙ remove_index_middle before item after))

  -- Where just one item has expired, refreshSkiplist removes that item and keeps the others, in their
  -- order.
  pub refresh_from-one :
      (before after : List (SkipItem Q)) (item : SkipItem Q)
      → AllCurrent before
      → is_expired now pods item ≡ true
      → AllCurrent after
      → refresh_from now pods 0 (before ++ (item ∷ after)) (before ++ (item ∷ after))
        ≡ (ok tt, before ++ after)
  refresh_from-one before after item hb e ha =
      refresh_first before after item hb e ∙ refresh_keep _ after (before ++ after) ha

  remove_index_next :
      (before : List (SkipItem Q)) (first second : SkipItem Q) (rest : List (SkipItem Q))
      → remove_index (before ++ (first ∷ second ∷ rest)) (suc (0 + length before))
        ≡ before ++ (first ∷ rest)
  remove_index_next before first second rest =
      let longer = before ++ (first ∷ []) in
      ap (λ l. remove_index l (suc (0 + length before)))
        (sym (append_assoc before (first ∷ []) (second ∷ rest)))
      ∙ (ap (remove_index (longer ++ (second ∷ rest)))
            (omega (arith, length-append before (first ∷ [])))
          ∙ (remove_index_middle longer second rest ∙ append_assoc before (first ∷ []) rest))

  -- Where two neighbours have expired, and all other items have not and there is one behind them,
  -- refreshSkiplist keeps the second neighbour and removes the item after it.
  pub refresh_from-wrong :
      (before after : List (SkipItem Q)) (first second current : SkipItem Q)
      → AllCurrent before
      → is_expired now pods first ≡ true
      → is_expired now pods second ≡ true
      → is_expired now pods current ≡ false
      → AllCurrent after
      → let items = before ++ (first ∷ second ∷ current ∷ after) in
        refresh_from now pods 0 items items ≡ (ok tt, before ++ (second ∷ after))
  refresh_from-wrong before after first second current hb e1 e2 c ha =
      refresh_first before (second ∷ current ∷ after) first hb e1
      ∙ (refresh_hit (suc (0 + length before)) second (current ∷ after)
            (before ++ (second ∷ current ∷ after)) e2
            (omega (arith, length-append before (second ∷ current ∷ after)))
          ∙ (ap (refresh_from now pods _ (current ∷ after))
                (remove_index_next before second current after)
              ∙ refresh_keep _ (current ∷ after) (before ++ (second ∷ after)) (c, ha)))

  -- The current list is too short for the index of the last item.
  refresh_short :
      (i : ℕ) (items : List (SkipItem Q)) (last : SkipItem Q) (current : List (SkipItem Q))
      → is_expired now pods last ≡ true
      → length current ≤ i + length items
      → (refresh_from now pods i (items ++ (last ∷ [])) current).0 ≡ panic
  refresh_short i [] last current e h = refresh_beyond i last [] current e (omega arith)
  refresh_short i (item ∷ items) last current e h = elim (Bool-cases (is_expired now pods item)) [
    | inr x ↦
        rw (refresh_miss i item (items ++ (last ∷ [])) current x)
          (refresh_short (suc i) items last current e (omega arith))
    | inl x ↦ elim (dec_lt i (length current)) [
      | no far ↦ refresh_beyond i item (items ++ (last ∷ [])) current x (omega arith)
      | yes near ↦ rw (refresh_hit i item (items ++ (last ∷ [])) current x near) (
          refresh_short (suc i) items last (remove_index current i) e
            (omega (arith, length-remove_index-le current i)))
    ]
  ]

  -- Where the last item and an earlier one have expired, refreshSkiplist panics.
  pub refresh_from-panic :
      (before middle : List (SkipItem Q)) (item last : SkipItem Q)
      → AllCurrent before
      → is_expired now pods item ≡ true
      → is_expired now pods last ≡ true
      → let items = before ++ (item ∷ (middle ++ (last ∷ []))) in
        (refresh_from now pods 0 items items).0 ≡ panic
  refresh_from-panic before middle item last hb e el =
      rw (refresh_first before (middle ++ (last ∷ [])) item hb e) (
        refresh_short _ middle last (before ++ (middle ++ (last ∷ []))) el (
          omega (
            arith,
            length-append before (middle ++ (last ∷ [])),
            length-append middle (last ∷ []),
          )))
