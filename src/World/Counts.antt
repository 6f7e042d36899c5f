-- ===== src/World/Counts.antt =====
-- How many calls of a kind an operation makes at most: combinators that follow its do block.
use target_exporter.Prelude.{
  ℕ, ◌+◌, ◌≤◌, ◌≡◌, Bool, String, List, [], ◌∷◌, ◌++◌, Dict, contains_key, HasUniqueKeys, tally,
  eq_iff, arith, ◌==◌, if◌then◌else◌, false, refl,
}
use target_exporter.Outcome.{Outcome, ok, err, panic, Action, and_then, ◌>>=◌, lift, for_each}
use target_exporter.World.{Event, Log, St, call}
use target_exporter.World.Calls.{for_each_cons}

tally-snoc :
    {X : Type 0} (p : X → Bool) (xs : List X) (x : X)
    → tally p (xs ++ (x ∷ [])) ≡ tally p xs + (if p x then 1 else 0)
tally-snoc p [] x = omega arith
tally-snoc p (y ∷ xs) x = omega (arith, tally-snoc p xs x)

module _ {S Q A : Type 0} where
  -- The operation makes at most `n` calls that pass the test.
  pub record AtMost (p : Event Q → Bool) (n : ℕ) (m : Action (St S Q) A) : Type 0 where
    pub bound : (st : St S Q) → tally p (m st).1.log ≤ tally p st.log + n

  pub call-AtMost :
      (p : Event Q → Bool) (e : Event Q) (answer : Log Q → Outcome A)
      → AtMost p (if p e then 1 else 0) (call {S = S} e answer)
  call-AtMost p e answer = record { bound = λ st. omega (arith, tally-snoc p st.log e) }

  pub stay-AtMost :
      (p : Event Q → Bool) (n : ℕ) (m : Action (St S Q) A)
      → ((st : St S Q) → (m st).1.log ≡ st.log)
      → AtMost p n m
  stay-AtMost p n m same = record { bound = λ st. rw (same st) (omega arith) }

  pub weaker :
      (p : Event Q → Bool) (n k : ℕ) (m : Action (St S Q) A) → n ≤ k → AtMost p n m → AtMost p k m
  weaker p n k m h a = record { bound = λ st. omega (arith, a.bound st, h) }

module _ {S Q A B : Type 0} where
  and_then-AtMost :
      (p : Event Q → Bool) (k : ℕ) (o : Outcome A) (g : A → Action (St S Q) B) (st : St S Q)
      → ((a : A) → AtMost p k (g a))
      → tally p (and_then o g st).1.log ≤ tally p st.log + k
  and_then-AtMost p k (ok a) g st h = (h a).bound st
  and_then-AtMost p k (err e) g st h = omega arith
  and_then-AtMost p k panic g st h = omega arith

  pub >>=-AtMost :
      (p : Event Q → Bool) (n k : ℕ) (m : Action (St S Q) A) (g : A → Action (St S Q) B)
      → AtMost p n m
      → ((a : A) → AtMost p k (g a))
      → AtMost p (n + k) (m >>= g)
  >>=-AtMost p n k m g hm hg = record {
    bound = λ st. omega (arith, hm.bound st, and_then-AtMost p k (m st).0 g (m st).1 hg);
  }

  -- A value that is there without a call.
  pub lift-AtMost :
      (p : Event Q → Bool) (k : ℕ) (o : Outcome A) (g : A → Action (St S Q) B)
      → ((a : A) → AtMost p k (g a))
      → AtMost p k (lift o >>= g)
  lift-AtMost p k o g h = record { bound = λ st. and_then-AtMost p k o g st h }

module _ {S Q X : Type 0} where
  -- A loop whose body makes at most one such call, and only for the elements that pass.
  pub for_each-AtMost :
      (p : Event Q → Bool) (q : X → Bool) (xs : List X) (body : X → Action (St S Q) (Unit {0}))
      → ((x : X) → AtMost p (if q x then 1 else 0) (body x))
      → AtMost p (tally q xs) (for_each xs body)
  for_each-AtMost p q [] body h = stay-AtMost p 0 (for_each [] body) (λ st. refl)
  for_each-AtMost p q (x ∷ xs) body h = record {
    bound = λ st. rw (for_each_cons x xs body st) (
        (>>=-AtMost p (if q x then 1 else 0) (tally q xs) (body x) (λ _. for_each xs body) (h x)
            (λ _. for_each-AtMost p q xs body h)).bound
          st);
  }

module _ {V : Type 0} where
  tally_of_absent :
      (k : String) (m : Dict V) → contains_key k m ≡ false → tally (λ e. e.0 == k) m ≡ 0
  tally_of_absent k [] h = refl
  tally_of_absent k ((j, v) ∷ m) h = ground (arith, tally_of_absent k m)

  -- A key stands in a map once at most.
  pub tally-HasUniqueKeys :
      (k : String) (m : Dict V) → HasUniqueKeys m → tally (λ e. e.0 == k) m ≤ 1
  tally-HasUniqueKeys k [] h = omega arith
  tally-HasUniqueKeys k ((j, v) ∷ m) h =
      ground (arith, eq_iff j k, tally_of_absent k m, tally-HasUniqueKeys k m h.1)
