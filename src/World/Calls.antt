-- ===== src/World/Calls.antt =====
-- Which calls an operation makes: combinators that follow its do block.
use target_exporter.Prelude.{
  ◌≡◌, refl, sym, ◌∙◌, ap, List, [], ◌∷◌, ◌++◌, All, All-append, append_assoc, append-nil,
}
use target_exporter.Outcome.{Outcome, ok, err, panic, Action, and_then, ◌>>=◌, for_each, lift}
use target_exporter.World.{Event, Log, St, call}

trivial-All : {X : Type 0} (xs : List X) → All (λ _. Unit {0}) xs
trivial-All [] = tt
trivial-All (x ∷ xs) = (tt, trivial-All xs)

pub All-weaker :
    {X : Type 0} {P R : X → Type 0} (xs : List X) → ((x : X) → P x → R x) → All P xs → All R xs
All-weaker [] h all = tt
All-weaker (x ∷ xs) h all = (h x all.0, All-weaker xs h all.1)

module _ {S Q A : Type 0} where
  -- Every call that the operation makes satisfies the predicate.
  pub record Calls (P : Event Q → Type 0) (m : Action (St S Q) A) : Type 0 where
    pub calls : (st : St S Q) → (new : Log Q) × ((m st).1.log ≡ st.log ++ new) × All P new

  pub call-Calls :
      (P : Event Q → Type 0) (e : Event Q) (answer : Log Q → Outcome A)
      → P e
      → Calls P (call {S = S} e answer)
  call-Calls P e answer p = record { calls = λ st. (e ∷ [], refl, (p, tt)) }

  pub stay-Calls :
      (P : Event Q → Type 0) (m : Action (St S Q) A)
      → ((st : St S Q) → (m st).1.log ≡ st.log)
      → Calls P m
  stay-Calls P m same = record { calls = λ st. ([], same st ∙ sym (append-nil st.log), tt) }

  pub lift-Calls : (P : Event Q → Type 0) (o : Outcome A) → Calls P (lift {S = St S Q} o)
  lift-Calls P o = stay-Calls P (lift o) (λ st. refl)

module _ {S Q A : Type 0} where
  -- An operation after other calls.
  pub later-Calls :
      (P : Event Q → Type 0) (m : Action (St S Q) A) (before new : Log Q) (st : St S Q)
      → st.log ≡ before ++ new
      → All P new
      → Calls P m
      → (more : Log Q) × ((m st).1.log ≡ before ++ more) × All P more
  later-Calls P m before new st e h k =
      let (later, same, fine) = k.calls st in
      (
        new ++ later,
        same ∙ (ap (λ l. l ++ later) e ∙ append_assoc before new later),
        All-append P new later h fine,
      )

  pub weaker-Calls :
      {P R : Event Q → Type 0} {m : Action (St S Q) A}
      → ((e : Event Q) → P e → R e)
      → Calls P m
      → Calls R m
  weaker-Calls h k = record {
    calls = λ st. let (new, same, fine) = k.calls st in (new, same, All-weaker new h fine);
  }

module _ {S Q A B : Type 0} where
  and_then-Calls :
      (P : Event Q → Type 0) (o : Outcome A) (g : A → Action (St S Q) B) (before new : Log Q)
      (st : St S Q)
      → st.log ≡ before ++ new
      → All P new
      → ((a : A) → Calls P (g a))
      → (more : Log Q) × ((and_then o g st).1.log ≡ before ++ more) × All P more
  and_then-Calls P (ok a) g before new st e h k = later-Calls P (g a) before new st e h (k a)
  and_then-Calls P (err t) g before new st e h k = (new, e, h)
  and_then-Calls P panic g before new st e h k = (new, e, h)

  pub >>=-Calls :
      (P : Event Q → Type 0) (m : Action (St S Q) A) (g : A → Action (St S Q) B)
      → Calls P m
      → ((a : A) → Calls P (g a))
      → Calls P (m >>= g)
  >>=-Calls P m g hm hg = record {
    calls = λ st.
        let (new, same, fine) = hm.calls st in
        and_then-Calls P (m st).0 g st.log new (m st).1 same fine hg;
  }

module _ {S Q X : Type 0} where
  pub for_each_cons :
      (x : X) (xs : List X) (body : X → Action (St S Q) (Unit {0})) (st : St S Q)
      → for_each (x ∷ xs) body st ≡ (body x >>= λ _. for_each xs body) st
  for_each_cons x xs body st = split_outcome (body x st).0 (body x st).1
    where
      split_outcome :
          (o : Outcome (Unit {0})) (st' : St S Q)
          → (elim o [ ok _ ↦ for_each xs body st' | err e ↦ (err e, st') | panic ↦ (panic, st') ])
            ≡ and_then o (λ _. for_each xs body) st'
      split_outcome (ok tt) st' = refl
      split_outcome (err e) st' = refl
      split_outcome panic st' = refl

  pub for_each-Calls :
      (P : Event Q → Type 0) (R : X → Type 0) (xs : List X) (body : X → Action (St S Q) (Unit {0}))
      → All R xs
      → ((x : X) → R x → Calls P (body x))
      → Calls P (for_each xs body)
  for_each-Calls P R [] body r h = stay-Calls P (for_each [] body) (λ st. refl)
  for_each-Calls P R (x ∷ xs) body r h =
      let rest = for_each-Calls P R xs body r.1 h in
      record {
        calls = λ st.
            rw (for_each_cons x xs body st)
              ((>>=-Calls P (body x) (λ _. for_each xs body) (h x r.0) (λ _. rest)).calls st);
      }

  pub for_each_body-Calls :
      (P : Event Q → Type 0) (xs : List X) (body : X → Action (St S Q) (Unit {0}))
      → ((x : X) → Calls P (body x))
      → Calls P (for_each xs body)
  for_each_body-Calls P xs body h =
      for_each-Calls P (λ _. Unit {0}) xs body (trivial-All xs) (λ x _. h x)
