-- ===== src/Infrastructure/Listing.antt =====
-- What a GET of the workloads answers.
use target_exporter.Prelude.{
  ◌≡◌, refl, ◌⊎◌, inl, inr, String, Option, none, some, Bool-cases, All, lookup, ◌==◌, List, [],
  ◌∷◌, ◌++◌, Dict,
}
use target_exporter.Prelude.Int.{ℤ}
use target_exporter.Float.{Float64}
use target_exporter.Outcome.{
  Outcome, ok, err, panic, OnOk, OnOk-bind, OnOk-self, IsCalm, bind-IsCalm, pure,
}
use target_exporter.World.{Quantity, Pod, Event, Env, St}
use target_exporter.Promclient.{get_cpu_counts}
use target_exporter.Kubeclient.{get_pods_in_namespace, resource_quantity_to_percentage}
use target_exporter.Kubeclient.Builder.{get_min_cpu, parsed, job_min_cpu_limit_annotation}
use target_exporter.Scheduling.SelfDriving.{cpu_limit_of}
use target_exporter.Infrastructure.{
  Workload, Body, Response, reply, server_error, answered, min_or_zero, workload_of, workloads_of,
  get_workloads,
}

module _ {F Q : Type 0} ⦃f : Float64 F⦄ ⦃q : Quantity Q⦄ (env : Env F Q) (cpu_counts : Dict ℤ) where
  -- The workload is the pod's, with the limit of its first container in percent, and its minimum, or
  -- 0 where it has none.
  pub record Describes (pod : Pod Q) (w : Workload F) : Type 0 where
    pub limit : Q
    pub named : w.name ≡ pod.name
    pub placed : w.node_name ≡ pod.node_name
    pub phase : w.status ≡ pod.phase
    pub limited : cpu_limit_of pod ≡ ok limit
    pub target : w.cpu_target ≡ f.to_int (resource_quantity_to_percentage cpu_counts limit "")
    pub minimum : min_or_zero env (get_min_cpu env pod) ≡ ok w.min_cpu_limit

  -- One workload for each pod, in order.
  abbrev pub Lists : List (Pod Q) → List (Workload F) → Type 0
  Lists [] [] = Unit
  Lists (pod ∷ pods) (w ∷ ws) = Describes pod w × Lists pods ws
  Lists _ _ = ⊥

  workload_of-Describes : (pod : Pod Q) → OnOk (Describes pod) (workload_of env cpu_counts pod)
  unfolding workload_of
  workload_of-Describes pod =
      OnOk-bind (λ limit. cpu_limit_of pod ≡ ok limit) (Describes pod) (cpu_limit_of pod) _
        (OnOk-self (cpu_limit_of pod))
        λ limit e.
          OnOk-bind (λ x. min_or_zero env (get_min_cpu env pod) ≡ ok x) (Describes pod)
            (min_or_zero env (get_min_cpu env pod)) _
            (OnOk-self (min_or_zero env (get_min_cpu env pod)))
            λ x e'. record {
              limit = limit;
              named = refl;
              placed = refl;
              phase = refl;
              limited = e;
              target = refl;
              minimum = e';
            }

  workloads_of-Lists : (pods : List (Pod Q)) → OnOk (Lists pods) (workloads_of env cpu_counts pods)
  unfolding workloads_of
  workloads_of-Lists [] = tt
  workloads_of-Lists (pod ∷ pods) =
      OnOk-bind (Describes pod) (Lists (pod ∷ pods)) (workload_of env cpu_counts pod) _
        (workload_of-Describes pod)
        λ w d.
          OnOk-bind (Lists pods) (Lists (pod ∷ pods)) (workloads_of env cpu_counts pods) _
            (workloads_of-Lists pods) (λ ws l. (d, l))

  -- The answer lists the pods with status 200, or is an error with status 500.
  abbrev pub Answers : List (Pod Q) → Option (Response F) → Type 0
  Answers pods answer =
      ((ws : List (Workload F)) × (answer ≡ reply 200 (Body.workloads_list ws)) × Lists pods ws)
      ⊎ ((e : String) × (answer ≡ server_error e))

  min_or_zero-IsCalm : (o : Outcome F) → IsCalm o → IsCalm (min_or_zero env o)
  min_or_zero-IsCalm (ok x) h = tt
  min_or_zero-IsCalm (err e) h = elim (Bool-cases (e == "job min annotation not found")) [
    | inl b ↦ rw b tt
    | inr b ↦ rw b tt
  ]
  min_or_zero-IsCalm panic h = absurd h

  module _ (parses : (text : String) → IsCalm (env.parse_float text)) where
    get_min_cpu-IsCalm : (pod : Pod Q) → IsCalm (get_min_cpu env pod)
    unfolding get_min_cpu
    get_min_cpu-IsCalm pod = from_annotation (lookup job_min_cpu_limit_annotation pod.annotations)
      where
        from_parse : (o : Outcome F) → IsCalm o → IsCalm (parsed env o)
        from_parse (ok x) h = tt
        from_parse (err e) h = tt
        from_parse panic h = absurd h

        from_annotation :
            (o : Option String)
            → IsCalm (elim o [
              | none ↦ err "job min annotation not found"
              | some text ↦ parsed env (env.parse_float text)
            ])
        from_annotation none = tt
        from_annotation (some text) = from_parse (env.parse_float text) (parses text)

    workloads_of-IsCalm :
        (pods : List (Pod Q))
        → All (λ pod. IsCalm (cpu_limit_of pod)) pods
        → IsCalm (workloads_of env cpu_counts pods)
    unfolding workloads_of workload_of
    workloads_of-IsCalm [] h = tt
    workloads_of-IsCalm (pod ∷ pods) h =
        bind-IsCalm (workload_of env cpu_counts pod) _
          (bind-IsCalm (cpu_limit_of pod) _ h.0 λ limit.
            bind-IsCalm (min_or_zero env (get_min_cpu env pod)) _
              (min_or_zero-IsCalm (get_min_cpu env pod) (get_min_cpu-IsCalm pod)) (λ x. tt))
          λ w.
            bind-IsCalm (workloads_of env cpu_counts pods) _ (workloads_of-IsCalm pods h.1)
              (λ ws. tt)

    answered-Answers :
        {S : Type 0} (pods : List (Pod Q)) (o : Outcome (List (Workload F))) (st : S)
        → IsCalm o
        → OnOk (Lists pods) o
        → (answer : Option (Response F)) × ((answered o server_error
              (λ ws. pure (reply 200 (Body.workloads_list ws)))
              st).0
            ≡ ok answer)
          × Answers pods answer
    answered-Answers pods (ok ws) st c h = (_, refl, inl (ws, refl, h))
    answered-Answers pods (err e) st c h = (_, refl, inr (e, refl))
    answered-Answers pods panic st c h = absurd c

    -- A GET of the workloads, where the pods and the CPU counts are known, every pod has a container
    -- and parsing a number does not panic, is answered: with one workload for each pod, in order, or
    -- with an error of status 500.
    pub get_workloads-Answers :
        {S : Type 0} (st : St S Q) (pods : List (Pod Q))
        → env.pods st.log ≡ ok pods
        → (get_cpu_counts env (record st { log = st.log ++ (Event.list_pods ∷ []) })).0
          ≡ ok cpu_counts
        → All (λ pod. IsCalm (cpu_limit_of pod)) pods
        → (answer : Option (Response F)) × ((get_workloads env st).0 ≡ ok answer)
          × Answers pods answer
    unfolding get_workloads get_pods_in_namespace
    get_workloads-Answers st pods e c h =
        rw (e, answered, c, answered)
          (answered-Answers pods (workloads_of env cpu_counts pods) _ (workloads_of-IsCalm pods h)
            (workloads_of-Lists pods))
