-- ===== src/Kubeclient/Pending.antt =====
-- Which job DeletePendingWorkload deletes.
use target_exporter.Prelude.{
  ◌≡◌, refl, ap, ◌∙◌, inl, inr, ◌⊎◌, Bool, true, false, List, [], ◌∷◌, ◌++◌, keep, append_assoc,
  ◌≤◌, arith, eqb, All, In, Bool-cases, subst,
}
use native.Mathlib.Nat.{le_refl}
use target_exporter.Outcome.{ok, pure, and_then, ◌>>◌}
use target_exporter.World.{Pod, Job, Event, Env, St}
use target_exporter.Kubeclient.Sorting.{IsSorted, sort-All, sort-IsSorted, In-sort}
use target_exporter.Kubeclient.{
  sort_by_creation, owns_any, delete_job_foreground, delete_first_pending, pick_pending,
  delete_pending_workload,
}

abbrev is_candidate : Job → Bool
is_candidate job = eqb job.succeeded 0

In-keep : (a : Job) (xs : List Job) → In a (keep is_candidate xs) → In a xs × (a.succeeded ≡ 0)
In-keep a [] h = absurd h
In-keep a (x ∷ xs) h = ground (arith, In-keep a xs)

module _ {Q : Type 0} (pods : List (Pod Q)) where
  -- The job owns a pending pod, and no older job of the list does.
  abbrev pub IsOldestPending : Job → List Job → Type 0
  IsOldestPending j xs =
      (owns_any j pods ≡ true) × All (λ k. owns_any k pods ≡ true → j.created ≤ k.created) xs

  oldest-head :
      (j : Job) (xs : List Job)
      → All (λ k. j.created ≤ k.created) xs
      → All (λ k. owns_any k pods ≡ true → j.created ≤ k.created) xs
  oldest-head j [] h = tt
  oldest-head j (x ∷ xs) h = ((λ _. h.0), oldest-head j xs h.1)

  keep-All :
      (P : Job → Type 0) (xs : List Job)
      → All P (keep is_candidate xs)
      → All (λ k. k.succeeded ≡ 0 → P k) xs
  keep-All P [] h = tt
  keep-All P (x ∷ xs) h = ground (arith, keep-All P xs)

module _ {F Q S : Type 0} (env : Env F Q) (pods : List (Pod Q)) where
  -- What a successful scan of the sorted candidates does.
  abbrev Scanned : List Job → St S Q → Bool → St S Q → Type 0
  Scanned xs st true st' =
      (j : Job) × In j xs
      × IsOldestPending pods j xs
      × (st' ≡ record st { log = st.log ++ (Event.delete_job_foreground j.name ∷ []) })
  Scanned xs st false st' = All (λ k. owns_any k pods ≡ false) xs × (st' ≡ st)

  Scanned-skip :
      (x : Job) (xs : List Job) (st : St S Q) (done : Bool) (st' : St S Q)
      → owns_any x pods ≡ false
      → Scanned xs st done st'
      → Scanned (x ∷ xs) st done st'
  Scanned-skip x xs st true st' e (j, m, (o, a), s) = (j, inr m, (o, ((λ t. cc), a)), s)
  Scanned-skip x xs st false st' e (a, s) = ((e, a), s)

  scan_hit :
      (x : Job) (xs : List Job) (st : St S Q)
      → owns_any x pods ≡ true
      → delete_first_pending env pods (x ∷ xs) st
        ≡ (delete_job_foreground env x.name >> pure true) st
  unfolding delete_first_pending
  scan_hit x xs st e = rw (e, delete_first_pending)

  scan_miss :
      (x : Job) (xs : List Job) (st : St S Q)
      → owns_any x pods ≡ false
      → delete_first_pending env pods (x ∷ xs) st ≡ delete_first_pending env pods xs st
  unfolding delete_first_pending
  scan_miss x xs st e = rw (e, delete_first_pending)

  hit_ok :
      (x : Job) (st : St S Q) (done : Bool)
      → ((delete_job_foreground env x.name >> pure true) st).0 ≡ ok done
      → (true ≡ done)
        × (((delete_job_foreground env x.name >> pure true) st).1
            ≡ record st { log = st.log ++ (Event.delete_job_foreground x.name ∷ []) })
  unfolding delete_job_foreground
  hit_ok x st done h = ground arith

  delete_first_pending-Scanned :
      (xs : List Job) (st : St S Q) (done : Bool)
      → IsSorted xs
      → (delete_first_pending env pods xs st).0 ≡ ok done
      → Scanned xs st done (delete_first_pending env pods xs st).1
  delete_first_pending-Scanned [] st true s h = absurd (nothing h)
    where
      nothing : (delete_first_pending env pods [] st).0 ≡ ok true → ⊥
      nothing h = unfold delete_first_pending in cc
  delete_first_pending-Scanned [] st false s h = unfold delete_first_pending in (tt, refl)
  delete_first_pending-Scanned (x ∷ xs) st done s h = elim (Bool-cases (owns_any x pods)) [
    | inl e ↦
        let (same, after) = hit_ok x st done (rw (scan_hit x xs st e) at h) in
        let hit = (delete_job_foreground env x.name >> pure true) st in
        rw (scan_hit x xs st e) (
          subst (λ d. Scanned (x ∷ xs) st d hit.1) same
            (x, inl refl, (e, ((λ _. le_refl _), oldest-head pods x xs s.0)), after))
    | inr e ↦ rw (scan_miss x xs st e) (
        Scanned-skip x xs st done _ e
          (delete_first_pending-Scanned xs st done s.1 (rw (scan_miss x xs st e) at h)))
  ]

module _ {F Q S : Type 0} (env : Env F Q) (jobs : List Job) (pods : List (Pod Q)) where
  -- What a call of DeletePendingWorkload without an error does, by its result.
  abbrev pub Chooses : St S Q → Bool → St S Q → Type 0
  Chooses st true st' =
      (j : Job) × In j jobs
      × (j.succeeded ≡ 0)
      × (owns_any j pods ≡ true)
      × All (λ k. k.succeeded ≡ 0 → owns_any k pods ≡ true → j.created ≤ k.created) jobs
      × (st'.log
          ≡ (st.log ++ (Event.list_jobs ∷ Event.list_pending_pods ∷ []))
            ++ (Event.delete_job_foreground j.name ∷ []))
  Chooses st false st' =
      All (λ k. k.succeeded ≡ 0 → owns_any k pods ≡ false) jobs
      × ((st'.log ≡ st.log ++ (Event.list_jobs ∷ []))
          ⊎ (st'.log ≡ st.log ++ (Event.list_jobs ∷ Event.list_pending_pods ∷ [])))

  abbrev asked : St S Q → St S Q
  asked st = record st {
    log = (st.log ++ (Event.list_jobs ∷ [])) ++ (Event.list_pending_pods ∷ []);
  }

  Scanned→Chooses :
      (st : St S Q) (done : Bool) (st' : St S Q)
      → Scanned env pods (sort_by_creation (keep is_candidate jobs)) (asked st) done st'
      → Chooses st done st'
  Scanned→Chooses st true st' (j, m, (o, a), s) =
      let P = λ (k : Job). owns_any k pods ≡ true → j.created ≤ k.created in
      let (listed, fresh) = In-keep j jobs (In-sort j (keep is_candidate jobs) m) in
      (
        j,
        listed,
        fresh,
        o,
        keep-All pods P jobs (sort-All P (keep is_candidate jobs) a),
        ap (λ t. t.log) s
            ∙ ap (λ l. l ++ (Event.delete_job_foreground j.name ∷ []))
                (append_assoc st.log (Event.list_jobs ∷ []) (Event.list_pending_pods ∷ [])),
      )
  Scanned→Chooses st false st' (a, s) =
      let P = λ (k : Job). owns_any k pods ≡ false in
      (
        keep-All pods P jobs (sort-All P (keep is_candidate jobs) a),
        inr (
            ap (λ t. t.log) s
            ∙ append_assoc st.log (Event.list_jobs ∷ []) (Event.list_pending_pods ∷ [])),
      )

  pick_pending_lem :
      (c : Job) (cs : List Job) (st : St S Q)
      → env.pending_pods (st.log ++ (Event.list_jobs ∷ [])) ≡ ok pods
      → pick_pending env (c ∷ cs) (record st { log = st.log ++ (Event.list_jobs ∷ []) })
        ≡ delete_first_pending env pods (sort_by_creation (c ∷ cs)) (asked st)
  unfolding pick_pending
  pick_pending_lem c cs st a = rw (a, and_then)

  pick_pending-Chooses :
      (candidates : List Job) (st : St S Q) (done : Bool)
      → keep is_candidate jobs ≡ candidates
      → env.pending_pods (st.log ++ (Event.list_jobs ∷ [])) ≡ ok pods
      → (pick_pending env candidates (record st { log = st.log ++ (Event.list_jobs ∷ []) })).0
        ≡ ok done
      → Chooses st done
          (pick_pending env candidates (record st { log = st.log ++ (Event.list_jobs ∷ []) })).1
  pick_pending-Chooses [] st true e a h = absurd (unfold pick_pending in (cc))
  pick_pending-Chooses [] st false e a h =
      unfold pick_pending in (keep-All pods (λ k. owns_any k pods ≡ false) jobs (rw e tt), inl refl)
  pick_pending-Chooses (c ∷ cs) st done e a h = rw (pick_pending_lem c cs st a) (
      Scanned→Chooses st done _ (
        rw e (
          delete_first_pending-Scanned env pods (sort_by_creation (c ∷ cs)) (asked st) done
            (sort-IsSorted (c ∷ cs)) (rw (pick_pending_lem c cs st a) at h))))

  -- A call of DeletePendingWorkload without an error that returns true has deleted one job: a listed
  -- one with no succeeded pod that owns a pending pod, and no older listed job is of that kind. One
  -- that returns false has deleted nothing, and no listed job is of that kind.
  pub delete_pending_workload-Chooses :
      (st : St S Q) (done : Bool)
      → env.jobs st.log ≡ ok jobs
      → env.pending_pods (st.log ++ (Event.list_jobs ∷ [])) ≡ ok pods
      → (delete_pending_workload env st).0 ≡ ok done
      → Chooses st done (delete_pending_workload env st).1
  unfolding delete_pending_workload
  delete_pending_workload-Chooses st done ej ep h =
      rw (ej, and_then)
        (pick_pending-Chooses (keep is_candidate jobs) st done refl ep (rw (ej, and_then) at h))
