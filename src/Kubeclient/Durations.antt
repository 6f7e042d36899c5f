-- ===== src/Kubeclient/Durations.antt =====
-- The length of a stress job: minutes of the request as a time.Duration and as a deadline.
use target_exporter.Prelude.{ℕ, ◌-◌, ◌*◌, ◌≤◌, ◌<◌, ◌≡◌, ap, ◌∙◌, ◌/◌, suc, some, arith}
use target_exporter.Prelude.Int.{pos, negsuc, ◌*ℤ◌, div_ℤ, wrap_int64}
use target_exporter.Outcome.{ok}
use target_exporter.World.{Quantity, JobManifest, Env, St}
use target_exporter.Kubeclient.Builder.{StressJob, minutes_to_duration, render_k8s_job}
use target_exporter.Kubeclient.Rendering.{HasParts, render_k8s_job-IsRendered}

mul_minute : (n : ℕ) → pos n *ℤ pos 60_000_000_000 ≡ pos (n * 60_000_000_000)
unfolding ◌*ℤ◌
mul_minute n = ground arith

-- An int64 keeps a number below 2^63, and one from there to 2^64 becomes negative.
wrap_int64_small : (m : ℕ) → m < 9_223_372_036_854_775_808 → wrap_int64 (pos m) ≡ pos m
unfolding wrap_int64
wrap_int64_small m h = ground arith

wrap_int64_large :
    (m : ℕ)
    → 9_223_372_036_854_775_808 ≤ m
    → m < 18_446_744_073_709_551_616
    → wrap_int64 (pos m) ≡ negsuc (18_446_744_073_709_551_616 - 1 - m)
unfolding wrap_int64
wrap_int64_large m h g = ground arith

div_negative :
    (x : ℕ)
    → 1_000_000_000 ≤ suc x
    → div_ℤ (negsuc x) 1_000_000_000 ≡ negsuc (suc x / 1_000_000_000 - 1)
unfolding div_ℤ
div_negative x h = ground arith

minutes_to_seconds :
    (n : ℕ) → n ≤ 153_722_867 → div_ℤ (minutes_to_duration (pos n)) 1_000_000_000 ≡ pos (60 * n)
unfolding minutes_to_duration div_ℤ
minutes_to_seconds n h =
    rw (mul_minute n, wrap_int64_small (n * 60_000_000_000) (omega arith), div_ℤ)
      (ap pos (omega arith))

-- A job of 153722868 to 307445734 minutes gets a negative deadline, since the product wraps.
pub minutes_to_duration-negative :
    (n : ℕ)
    → 153_722_868 ≤ n
    → n ≤ 307_445_734
    → (k : ℕ) × (div_ℤ (minutes_to_duration (pos n)) 1_000_000_000 ≡ negsuc k)
unfolding minutes_to_duration
minutes_to_duration-negative n h g =
    rw (mul_minute n, wrap_int64_large (n * 60_000_000_000) (omega arith) (omega arith))
      (_, div_negative (18_446_744_073_709_551_616 - 1 - n * 60_000_000_000) (omega arith))

-- A stress job whose length comes from at most 153722867 minutes is rendered, on a prototype that has
-- what the rendering writes to, as a Job whose deadline is 60 seconds for each minute.
pub render_k8s_job-deadline :
    {F Q S : Type 0} ⦃q : Quantity Q⦄ (env : Env F Q) (job : StressJob F Q) (st : St S Q)
    (m : JobManifest Q) (n : ℕ)
    → HasParts m
    → env.decoded_prototype ≡ ok m
    → n ≤ 153_722_867
    → job.length ≡ minutes_to_duration (pos n)
    → (m' : JobManifest Q) × ((render_k8s_job env job st).0 ≡ ok m')
      × (m'.active_deadline_seconds ≡ some (pos (60 * n)))
render_k8s_job-deadline env job st m n parts e h l =
    let (m', rendered, fields, timed) = render_k8s_job-IsRendered env job st m parts e in
    (
      m',
      rendered,
      fields.deadline ∙ ap some (ap (λ x. div_ℤ x 1_000_000_000) l ∙ minutes_to_seconds n h),
    )
