-- ===== src/Outcome.antt =====
-- Go code that returns an error or panics, with the state that it has changed until then.
use target_exporter.Prelude.{◌≡◌, refl, ◌⊎◌, inl, inr, String, List, [], ◌∷◌}

-- An `error` is its message. A panic ends the goroutine, and with it the program, unless something
-- recovers from it.
pub data Outcome {ℓ} (A : Type ℓ) : Type ℓ where
  ok : A → Outcome A
  err : String → Outcome A
  panic : Outcome A

abbrev pub Action : Type 0 → Type 0 → Type 0
Action S A = S → Outcome A × S

module _ {S A : Type 0} where
  abbrev pub pure : A → Action S A
  pure a s = (ok a, s)

  abbrev pub fail : String → Action S A
  fail e s = (err e, s)

  abbrev pub crash : Action S A
  crash s = (panic, s)

  abbrev pub lift : Outcome A → Action S A
  lift o s = (o, s)

module _ {A B : Type 0} where
  abbrev pub bind_outcome : Outcome A → (A → Outcome B) → Outcome B
  bind_outcome (ok a) k = k a
  bind_outcome (err e) k = err e
  bind_outcome panic k = panic

-- A predicate on the result of a call that returns no error.
abbrev pub OnOk {ℓ κ} : {A : Type ℓ} → (A → Type κ) → Outcome A → Type κ
OnOk P (ok a) = P a
OnOk P (err e) = Unit
OnOk P panic = Unit

pub OnOk-bind :
    {A B : Type 0} (P : A → Type 0) (R : B → Type 0) (o : Outcome A) (k : A → Outcome B)
    → OnOk P o
    → ((a : A) → P a → OnOk R (k a))
    → OnOk R (bind_outcome o k)
OnOk-bind P R (ok a) k p h = h a p
OnOk-bind P R (err e) k p h = tt
OnOk-bind P R panic k p h = tt

pub OnOk-self : {A : Type 0} (o : Outcome A) → OnOk (λ a. o ≡ ok a) o
OnOk-self (ok a) = refl
OnOk-self (err e) = tt
OnOk-self panic = tt

pub Outcome-cases :
    {A : Type 0} (o : Outcome A)
    → ((a : A) × (o ≡ ok a)) ⊎ ((e : String) × (o ≡ err e)) ⊎ (o ≡ panic)
Outcome-cases (ok a) = inl (a, refl)
Outcome-cases (err e) = inr (inl (e, refl))
Outcome-cases panic = inr (inr refl)

-- Not a panic.
abbrev pub IsCalm {ℓ} : {A : Type ℓ} → Outcome A → Type 0
IsCalm (ok a) = Unit
IsCalm (err e) = Unit
IsCalm panic = ⊥

pub bind-IsCalm :
    {A B : Type 0} (o : Outcome A) (k : A → Outcome B)
    → IsCalm o
    → ((a : A) → IsCalm (k a))
    → IsCalm (bind_outcome o k)
bind-IsCalm (ok a) k h g = g a
bind-IsCalm (err e) k h g = tt
bind-IsCalm panic k h g = absurd h

module _ {S A B : Type 0} where
  abbrev pub and_then : Outcome A → (A → Action S B) → Action S B
  and_then (ok a) k s = k a s
  and_then (err e) k s = (err e, s)
  and_then panic k s = (panic, s)

  infixl 5 ◌>>=◌ ◌>>◌
  abbrev pub ◌>>=◌ : Action S A → (A → Action S B) → Action S B
  ◌>>=◌ m k s = and_then (m s).0 k (m s).1

  abbrev pub ◌>>◌ : Action S A → Action S B → Action S B
  m >> k = m >>= λ _. k

  -- Inversion of a successful sequence.
  pub and_then-eq-ok :
      (o : Outcome A) (k : A → Action S B) (s : S) {b : B}
      → (and_then o k s).0 ≡ ok b
      → (a : A) × (o ≡ ok a)
  and_then-eq-ok (ok a) k s h = (a, refl)
  and_then-eq-ok (err e) k s h = cc
  and_then-eq-ok panic k s h = cc

module _ {S : Type 0} where
  abbrev pub get : Action S S
  get s = (ok s, s)

  abbrev pub modify : (S → S) → Action S (Unit {0})
  modify g s = (ok tt, g s)

module _ {S X : Type 0} where
  -- `for _, x := range xs { body }`, where the body may return an error or panic.
  abbrev pub for_each : List X → (X → Action S (Unit {0})) → Action S (Unit {0})
  for_each [] body s = (ok tt, s)
  for_each (x ∷ xs) body s =
      let (result, s') = body x s in
      elim result [ ok _ ↦ for_each xs body s' | err e ↦ (err e, s') | panic ↦ (panic, s') ]

  -- What each pass through the body keeps is kept by the loop, however it ends.
  pub for_each_keeps :
      (R : S → Type 0) (xs : List X) (body : X → Action S (Unit {0}))
      → ((x : X) (s : S) → R s → R (body x s).1)
      → (s : S) → R s
      → R (for_each xs body s).1
  for_each_keeps R [] body h s r = r
  for_each_keeps R (x ∷ xs) body h s r =
      continue (body x s).0 (body x s).1 (h x s r) (for_each_keeps R xs body h (body x s).1)
    where
      continue :
          (o : Outcome (Unit {0})) (s' : S)
          → R s'
          → (R s' → R (for_each xs body s').1)
          → R
              (elim o as (λ _. Outcome (Unit {0}) × S) [
                | ok _ ↦ for_each xs body s'
                | err e ↦ (err e, s')
                | panic ↦ (panic, s')
              ]).1
      continue (ok _) s' r k = k r
      continue (err e) s' r k = r
      continue panic s' r k = r

  -- What each pass keeps that succeeds is kept by a loop that succeeds.
  pub for_each_keeps_ok :
      (R : S → Type 0) (xs : List X) (body : X → Action S (Unit {0}))
      → ((x : X) (s : S) → R s → (body x s).0 ≡ ok tt → R (body x s).1)
      → (s : S) → R s
      → (for_each xs body s).0 ≡ ok tt
      → R (for_each xs body s).1
  for_each_keeps_ok R [] body h s r e = r
  for_each_keeps_ok R (x ∷ xs) body h s r e = elim (Outcome-cases (body x s).0) [
    | inl (done, o) ↦
        rw (o, for_each)
          (for_each_keeps_ok R xs body h (body x s).1 (h x s r o) (rw (o, for_each) at e))
    | inr (inl (t, o)) ↦ (let bad = rw (o, for_each) at e in cc)
    | inr (inr o) ↦ (let bad = rw (o, for_each) at e in cc)
  ]

module _ {S A B : Type 0} where
  pub and_then_keeps :
      (R : S → Type 0) (o : Outcome A) (k : A → Action S B) (s : S)
      → R s
      → ((a : A) (s : S) → R s → R (k a s).1)
      → R (and_then o k s).1
  and_then_keeps R (ok a) k s r h = h a s r
  and_then_keeps R (err e) k s r h = r
  and_then_keeps R panic k s r h = r
