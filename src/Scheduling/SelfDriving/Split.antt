-- ===== src/Scheduling/SelfDriving/Split.antt =====
-- The first loop of the throttling branch of getViolatingPodsDelta: which pods get an update of their
-- own, and which share the rest.
use target_exporter.Prelude.{
  suc, ◌≡◌, refl, sym, ap, subst, inl, inr, Bool, true, false, String, List, [], ◌∷◌, ◌++◌,
  append-nil, append_assoc, Dict, contains_key, contains_key-insert, In, All, All-append, ◌==◌,
  Bool-cases, eq_refl, insert, if◌then◌else◌, arith,
}
use target_exporter.Prelude.Int.{ℤ}
use target_exporter.Float.{Float64, num}
use target_exporter.Outcome.{Outcome, ok, err, panic, OnOk, OnOk-bind, OnOk-self}
use target_exporter.World.{Quantity, Pod, Env}
use target_exporter.World.Calls.{All-weaker}
use target_exporter.World.Covering.{In-left, In-right}
use target_exporter.Kubeclient.Builder.{get_min_cpu}
use target_exporter.Scheduling.SelfDriving.{cpu_limit_of}
use target_exporter.Scheduling.SelfDriving.Delta.{Split, split_pod, split_min, split_pods}
use target_exporter.Scheduling.SelfDriving.Entries.{insert-All_entries}
use target_exporter.Scheduling.SelfDriving.Partial.{IsLow, IsAmple, partial, IsSeen, IsSplit}

module _ {F Q : Type 0} ⦃f : Float64 F⦄ ⦃q : Quantity Q⦄ (env : Env F Q) (cpu_counts : Dict ℤ)
    (node : String) (avg : F) where
  module _ (pods : List (Pod Q)) where
    weaker-IsSeen :
        (partials more : List (String × F)) (evens evens' : List (Pod Q)) (pod : Pod Q)
        → ((e : String × F) → In e partials → In e more)
        → ((p : Pod Q) → In p evens → In p evens')
        → IsSeen env cpu_counts node avg partials evens pod
        → IsSeen env cpu_counts node avg more evens' pod
    weaker-IsSeen partials more evens evens' pod g h seen min_cpu is = elim (seen min_cpu is) [
      | inl (ample, at) ↦ inl (ample, h pod at)
      | inr (low, (limit, has, at)) ↦ inr (low, (limit, has, g _ at))
    ]

    take_low :
        (seen : List (Pod Q)) (pod : Pod Q) (min_cpu : F) (limit : Q) (s : Split F Q)
        → In pod pods
        → get_min_cpu env pod ≡ ok min_cpu
        → cpu_limit_of pod ≡ ok limit
        → IsLow env cpu_counts node avg min_cpu
        → IsSplit env cpu_counts node avg pods seen s
        → IsSplit env cpu_counts node avg pods (seen ++ (pod ∷ [])) (record s {
          updates = insert pod.name (partial env cpu_counts node avg pod min_cpu limit).1 s.updates;
          subceeding_count = suc s.subceeding_count;
          ignore_partials =
              f.add s.ignore_partials (partial env cpu_counts node avg pod min_cpu limit).1;
        })
    take_low seen pod min_cpu limit s at m has low h =
        let e = partial env cpu_counts node avg pod min_cpu limit in
        record {
          partials = e ∷ h.partials;
          low = ((pod, min_cpu, limit, at, m, has, low, refl), h.low);
          count = ap suc h.count;
          sum = ap (λ x. f.add x e.1) h.sum;
          entries =
              insert-All_entries (λ x. In x (e ∷ h.partials)) pod.name e.1 s.updates (inl refl)
                (All-weaker s.updates (λ x i. inr i) h.entries);
          keyed = (written pod.name, All-weaker h.partials (λ x k. kept x.0 k) h.keyed);
          even = h.even;
          visited =
              All-append _ seen (pod ∷ [])
                (All-weaker seen
                  (λ p v.
                    weaker-IsSeen h.partials (e ∷ h.partials) s.not_subceeding s.not_subceeding p
                      (λ x i. inr i) (λ p' i. i) v)
                  h.visited)
                (
                  (λ other is. inr (
                      let same : min_cpu ≡ other = cc in
                      subst
                        (λ x.
                          IsLow env cpu_counts node avg x
                          × ((l : Q) × (cpu_limit_of pod ≡ ok l)
                              × In (partial env cpu_counts node avg pod x l) (e ∷ h.partials)))
                        same (low, (limit, has, inl refl)))),
                  tt,
                );
        }
      where
        written :
            (name : String)
            → contains_key name
                (insert name (partial env cpu_counts node avg pod min_cpu limit).1 s.updates)
              ≡ true
        written name = ground (
          arith,
          contains_key-insert name name (partial env cpu_counts node avg pod min_cpu limit).1
              s.updates,
          eq_refl name,
        )

        kept :
            (name : String)
            → contains_key name s.updates ≡ true
            → contains_key name
                (insert pod.name (partial env cpu_counts node avg pod min_cpu limit).1 s.updates)
              ≡ true
        kept name k = ground (
          arith,
          contains_key-insert pod.name name (partial env cpu_counts node avg pod min_cpu limit).1
              s.updates,
        )

    take_even :
        (seen : List (Pod Q)) (pod : Pod Q) (min_cpu : F) (s : Split F Q)
        → In pod pods
        → get_min_cpu env pod ≡ ok min_cpu
        → IsAmple env cpu_counts node avg min_cpu
        → IsSplit env cpu_counts node avg pods seen s
        → IsSplit env cpu_counts node avg pods
            (seen ++ (pod ∷ []))
            (record s { not_subceeding = s.not_subceeding ++ (pod ∷ []) })
    take_even seen pod min_cpu s at m ample h = record {
      partials = h.partials;
      low = h.low;
      count = h.count;
      sum = h.sum;
      entries = h.entries;
      keyed = h.keyed;
      even = All-append _ s.not_subceeding (pod ∷ []) h.even ((at, (min_cpu, m, ample)), tt);
      visited =
          All-append _ seen (pod ∷ [])
            (All-weaker seen
              (λ p v.
                weaker-IsSeen h.partials h.partials s.not_subceeding _ p (λ x i. i)
                  (λ p' i. In-left s.not_subceeding (pod ∷ []) p' i) v)
              h.visited)
            (
              (λ other is. inl (
                  let same : min_cpu ≡ other = cc in
                  subst
                    (λ x.
                      IsAmple env cpu_counts node avg x × In pod (s.not_subceeding ++ (pod ∷ [])))
                    same (ample, In-right s.not_subceeding (pod ∷ []) pod (inl refl)))),
              tt,
            );
    }

    if-IsSplit :
        (seen : List (Pod Q)) (b : Bool) (s t : Split F Q)
        → (b ≡ true → IsSplit env cpu_counts node avg pods seen s)
        → (b ≡ false → IsSplit env cpu_counts node avg pods seen t)
        → IsSplit env cpu_counts node avg pods seen (if b then s else t)
    if-IsSplit seen true s t hs ht = hs refl
    if-IsSplit seen false s t hs ht = ht refl

    split_pod-IsSplit :
        (seen : List (Pod Q)) (pod : Pod Q) (min_cpu : F) (s : Split F Q)
        → In pod pods
        → get_min_cpu env pod ≡ ok min_cpu
        → IsSplit env cpu_counts node avg pods seen s
        → OnOk
            (IsSplit env cpu_counts node avg pods (seen ++ (pod ∷ [])))
            (split_pod env cpu_counts node avg pod min_cpu s)
    unfolding split_pod
    split_pod-IsSplit seen pod min_cpu s i m h =
        OnOk-bind (λ limit. cpu_limit_of pod ≡ ok limit)
          (IsSplit env cpu_counts node avg pods (seen ++ (pod ∷ []))) (cpu_limit_of pod) _
          (OnOk-self (cpu_limit_of pod))
          λ limit e.
            if-IsSplit (seen ++ (pod ∷ [])) (f.lt (f.sub min_cpu (f.abs avg)) (num 0)) _ _
              (λ b. take_low seen pod min_cpu limit s i m e b h)
              (λ b. take_even seen pod min_cpu s i m b h)

    split_min-IsSplit :
        (seen : List (Pod Q)) (pod : Pod Q) (o : Outcome F) (s : Split F Q)
        → In pod pods
        → get_min_cpu env pod ≡ o
        → IsSplit env cpu_counts node avg pods seen s
        → OnOk
            (IsSplit env cpu_counts node avg pods (seen ++ (pod ∷ [])))
            (split_min env cpu_counts node avg pod o s)
    unfolding split_min
    split_min-IsSplit seen pod (ok min_cpu) s i m h = split_pod-IsSplit seen pod min_cpu s i m h
    split_min-IsSplit seen pod (err t) s i m h =
        elim (Bool-cases (t == "job min annotation not found")) [
          | inl b ↦ rw b (record {
            partials = h.partials;
            low = h.low;
            count = h.count;
            sum = h.sum;
            entries = h.entries;
            keyed = h.keyed;
            even = h.even;
            visited = All-append _ seen (pod ∷ []) h.visited ((λ min_cpu is. cc), tt);
          })
          | inr b ↦ rw b tt
        ]
    split_min-IsSplit seen pod panic s i m h = tt

    pub split_pods-IsSplit :
        (seen todo : List (Pod Q)) (s : Split F Q)
        → All (λ pod. In pod pods) todo
        → IsSplit env cpu_counts node avg pods seen s
        → OnOk
            (IsSplit env cpu_counts node avg pods (seen ++ todo))
            (split_pods env cpu_counts node avg todo s)
    unfolding split_pods
    split_pods-IsSplit seen [] s i h =
        subst (λ l. IsSplit env cpu_counts node avg pods l s) (sym (append-nil seen)) h
    split_pods-IsSplit seen (pod ∷ rest) s i h =
        OnOk-bind (IsSplit env cpu_counts node avg pods (seen ++ (pod ∷ [])))
          (IsSplit env cpu_counts node avg pods (seen ++ (pod ∷ rest))) _ _
          (split_min-IsSplit seen pod (get_min_cpu env pod) s i.0 refl h)
          (λ s' h'.
            subst
              (λ l.
                OnOk (IsSplit env cpu_counts node avg pods l)
                  (split_pods env cpu_counts node avg rest s'))
              (append_assoc seen (pod ∷ []) rest)
              (split_pods-IsSplit (seen ++ (pod ∷ [])) rest s' i.1 h'))
