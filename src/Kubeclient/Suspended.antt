-- ===== src/Kubeclient/Suspended.antt =====
-- What GetSuspendedJobs collects.
use target_exporter.Prelude.{
  ℕ, suc, ◌+◌, ◌≡◌, ap, ◌∙◌, Bool, false, Option, none, some, List, [], ◌∷◌, ◌++◌, All, tally,
  replicate, arith, if◌then◌else◌,
}
use target_exporter.Outcome.{ok, and_then}
use target_exporter.World.{Job, Env, St}
use target_exporter.Kubeclient.{pointers_to, get_suspended_jobs}

abbrev pub is_suspended : Job → Bool
is_suspended job = elim job.suspend [ none ↦ false | some b ↦ b ]

abbrev pub HasSuspend : Job → Type 0
HasSuspend job = (b : Bool) × (job.suspend ≡ some b)

pointers_to_step :
    (cell : Option Job) (n : ℕ) (job : Job) (rest : List Job) (b : Bool)
    → job.suspend ≡ some b
    → pointers_to cell n (job ∷ rest) ≡ pointers_to (some job) (if b then suc n else n) rest
unfolding pointers_to
pointers_to_step none n job rest b e = ground arith
pointers_to_step (some c) n job rest b e = ground arith

pointers_to-last :
    (cell : Option Job) (n : ℕ) (xs : List Job) (last : Job)
    → All HasSuspend xs
    → HasSuspend last
    → pointers_to cell n (xs ++ (last ∷ []))
      ≡ ok (replicate (tally is_suspended (xs ++ (last ∷ [])) + n) last)
pointers_to-last cell n [] last h (b, e) =
    pointers_to_step cell n last [] b e
    ∙ unfold pointers_to in ap (λ (k : ℕ). ok (replicate k last)) (ground arith)
pointers_to-last cell n (x ∷ xs) last (h, hs) l =
    pointers_to_step cell n x (xs ++ (last ∷ [])) h.0 h.1
    ∙ (pointers_to-last (some x) (if h.0 then suc n else n) xs last hs l
        ∙ ap (λ (k : ℕ). ok (replicate k last)) (ground arith))

-- GetSuspendedJobs returns, for each suspended job, the last job of the list: as many copies of it
-- as there are suspended jobs, whether or not it is suspended itself.
pub get_suspended_jobs-last :
    {F Q S : Type 0} (env : Env F Q) (st : St S Q) (xs : List Job) (last : Job)
    → env.jobs st.log ≡ ok (xs ++ (last ∷ []))
    → All HasSuspend xs
    → HasSuspend last
    → (get_suspended_jobs env st).0 ≡ ok (replicate (tally is_suspended (xs ++ (last ∷ []))) last)
unfolding get_suspended_jobs
get_suspended_jobs-last env st xs last e h l =
    rw (e, and_then)
      (pointers_to-last none 0 xs last h l ∙ ap (λ (k : ℕ). ok (replicate k last)) (omega arith))
