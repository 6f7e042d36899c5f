-- ===== src/World/Covering.antt =====
-- Which calls a loop makes: each belongs to an element, and a loop that ends without an error has made
-- one for each element that needs it.
use target_exporter.Prelude.{
  ◌≡◌, refl, sym, subst, ◌∙◌, ap, inl, inr, List, [], ◌∷◌, ◌++◌, In, All, All-append, append_assoc,
  append-nil,
}
use target_exporter.Outcome.{Outcome, ok, err, panic, Action, and_then, for_each}
use target_exporter.World.{Event, Log, St}
use target_exporter.World.Calls.{All-weaker, for_each_cons}

pub All-lookup : {A : Type 0} (P : A → Type 0) (xs : List A) (x : A) → All P xs → In x xs → P x
All-lookup P [] x all at = absurd at
All-lookup P (y ∷ ys) x all (inl e) = subst P (sym e) all.0
All-lookup P (y ∷ ys) x all (inr at) = All-lookup P ys x all.1 at

pub All-In : {A : Type 0} (xs : List A) → All (λ x. In x xs) xs
All-In [] = tt
All-In (x ∷ xs) = (inl refl, All-weaker xs (λ y h. inr h) (All-In xs))

pub In-left : {A : Type 0} (xs ys : List A) (x : A) → In x xs → In x (xs ++ ys)
In-left [] ys x h = absurd h
In-left (y ∷ xs) ys x (inl e) = inl e
In-left (y ∷ xs) ys x (inr h) = inr (In-left xs ys x h)

pub In-right : {A : Type 0} (xs ys : List A) (x : A) → In x ys → In x (xs ++ ys)
In-right [] ys x h = h
In-right (y ∷ xs) ys x h = inr (In-right xs ys x h)

module _ {Q X : Type 0} (P : X → Event Q → Type 0) (Needs : X → Type 0) where
  -- A call for the element is among them, if it needs one.
  abbrev pub IsMade : Log Q → X → Type 0
  IsMade new x = Needs x → (e : Event Q) × In e new × P x e

  first :
      (x : X) (xs : List X) (e : Event Q)
      → (y : X) × In y (x ∷ []) × P y e
      → (y : X) × In y (x ∷ xs) × P y e
  first x xs e (y, inl is, p) = (y, inl is, p)
  first x xs e (y, inr at, p) = absurd at

module _ {S Q X : Type 0} (P : X → Event Q → Type 0) (Needs : X → Type 0) where
  -- The calls since the log are each for one of the elements, and if the operation has ended without
  -- an error, all of these have their calls.
  abbrev pub Covers : List X → Log Q → Outcome (Unit {0}) × St S Q → Type 0
  Covers xs log out =
      (new : Log Q) × (out.1.log ≡ log ++ new)
      × All (λ e. (x : X) × In x xs × P x e) new
      × (out.0 ≡ ok tt → All (IsMade P Needs new) xs)

  module _ (body : X → Action (St S Q) (Unit {0})) where
    after :
        (x : X) (xs : List X) (log : Log Q) (o : Outcome (Unit {0})) (st : St S Q)
        → Covers (x ∷ []) log (o, st)
        → Covers xs st.log (for_each xs body st)
        → Covers (x ∷ xs) log (and_then o (λ _. for_each xs body) st)
    after x xs log (ok done) st (new, same, for_x, made) (more, same', for_xs, made') = (
      new ++ more,
      same' ∙ (ap (λ l. l ++ more) same ∙ append_assoc log new more),
      All-append _ new more (All-weaker new (first P Needs x xs) for_x)
          (All-weaker more (λ e (y, at, p). (y, inr at, p)) for_xs),
      (λ ended. (
        (λ needs. let (e, at, p) = (made refl).0 needs in (e, In-left new more e at, p)),
        All-weaker xs (λ y has needs. let (e, at, p) = has needs in (e, In-right new more e at, p))
            (made' ended),
      )),
    )
    after x xs log (err t) st (new, same, for_x, made) rest =
        (new, same, All-weaker new (first P Needs x xs) for_x, (λ ended. cc))
    after x xs log panic st (new, same, for_x, made) rest =
        (new, same, All-weaker new (first P Needs x xs) for_x, (λ ended. cc))

    pub for_each-Covers :
        (xs : List X)
        → ((x : X) (st : St S Q) → Covers (x ∷ []) st.log (body x st))
        → (st : St S Q) → Covers xs st.log (for_each xs body st)
    for_each-Covers [] h st = ([], sym (append-nil st.log), tt, (λ ended. tt))
    for_each-Covers (x ∷ xs) h st = rw (for_each_cons x xs body st) (
        after x xs st.log (body x st).0 (body x st).1 (h x st) (for_each-Covers xs h (body x st).1))

module _ {S Q X Y : Type 0} (P : X → Event Q → Type 0) (Needs : X → Type 0)
    (R : Y → Event Q → Type 0) (Wants : Y → Type 0) where
  -- The calls for the elements of one list, seen as calls for those of another.
  pub as-Covers :
      (xs : List X) (ys : List Y) (log : Log Q) (out : Outcome (Unit {0}) × St S Q)
      → ((x : X) (e : Event Q) → In x xs → P x e → (y : Y) × In y ys × R y e)
      → All (λ y. Wants y → (x : X) × In x xs × Needs x × ((e : Event Q) → P x e → R y e)) ys
      → Covers P Needs xs log out
      → Covers R Wants ys log out
  as-Covers xs ys log out from to (new, same, calls, made) = (
    new,
    same,
    All-weaker new (λ e (x, at, p). from x e at p) calls,
    (λ ended.
        All-weaker ys
          (λ y wanted wants.
            let (x, at, needs, back) = wanted wants in
            let (e, in_new, p) = All-lookup (IsMade P Needs new) xs x (made ended) at needs in
            (e, in_new, back e p))
          to),
  )
