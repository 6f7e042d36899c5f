-- ===== src/System/Orders.antt =====
-- What a client must have asked for before the program changes the cluster.
use target_exporter.Prelude.{arith, refl, ℕ, List, Dict, All, In}
use target_exporter.Float.{Float64}
use target_exporter.World.{Quantity}
use target_exporter.World.Calls.{All-weaker}
use target_exporter.Scheduling.Strategy.{Command}
use target_exporter.Scheduling.Orchestrator.Forwarding.{new_orchestrator}
use target_exporter.Serverswitch.{IpmiServerSwitch}
use target_exporter.Infrastructure.Switching.{Name}
use target_exporter.Infrastructure.Routes.{Handler}
use target_exporter.Infrastructure.Exporter.{start_metrics}
use target_exporter.System.{System, Setup, new_system}
use target_exporter.System.Running.{Act, Run}
use target_exporter.System.Powers.{Kind, kind, powers}
use target_exporter.System.Blame.{Run-IsBlamed}
use target_exporter.System.Prompting.{Prompts}
use target_exporter.System.Prompted.{Run-Prompted}

module _ {F : Type 0} where
  -- The request asks for calls of the kind, at once or by a strategy that it starts.
  abbrev pub Orders : Kind → Act F → Type 0
  Orders Kind.create (Act.request Handler.post_workloads input) = Unit
  Orders Kind.create (Act.request Handler.post_job_scenario input) = Unit
  Orders Kind.create a = Prompts Name.automatic_job_spawn Command.start a
  Orders Kind.delete (Act.request Handler.delete_completed input) = Unit
  Orders Kind.delete (Act.request Handler.delete_pending_last input) = Unit
  Orders Kind.patch (Act.request Handler.patch_workload input) = Unit
  Orders Kind.patch a = Prompts Name.self_driving Command.start a
  Orders _ a = ⊥

  -- Some act has ordered calls of the kind; reading, resuming and IPMI connections need no order, and
  -- nothing orders a switch of a server's power.
  abbrev pub HasOrder : List (Act F) → Kind → Type 0
  HasOrder acts Kind.ask = Unit
  HasOrder acts Kind.resume = Unit
  HasOrder acts Kind.connect = Unit
  HasOrder acts k = (a : Act F) × In a acts × Orders k a

  prompted_create :
      (a : Act F) → Prompts Name.automatic_job_spawn Command.start a → Orders Kind.create a
  prompted_create (Act.request (Handler.put_switch j) input) p = p
  prompted_create (Act.request _ input) p = absurd p
  prompted_create (Act.round k) p = absurd p
  prompted_create Act.jobs_round p = absurd p
  prompted_create Act.mark_all p = absurd p
  prompted_create Act.inner p = absurd p

  prompted_patch : (a : Act F) → Prompts Name.self_driving Command.start a → Orders Kind.patch a
  prompted_patch (Act.request (Handler.put_switch j) input) p = p
  prompted_patch (Act.request _ input) p = absurd p
  prompted_patch (Act.round k) p = absurd p
  prompted_patch Act.jobs_round p = absurd p
  prompted_patch Act.mark_all p = absurd p
  prompted_patch Act.inner p = absurd p

module _ {F Q : Type 0} ⦃f : Float64 F⦄ ⦃q : Quantity Q⦄ (setup : Setup F Q) (config : Dict F)
    (switches : Dict IpmiServerSwitch) (now : ℕ) where
  -- Who grants a kind has an order of it.
  granted :
      {s : System F Q} {acts : List (Act F)}
      → Run setup (new_system config switches now) acts s
      → (a : Act F) (k : Kind) → In a acts
      → In k (powers a)
      → HasOrder acts k
  unfolding new_system new_orchestrator
  granted run a Kind.ask at h = tt
  granted run a Kind.resume at h = tt
  granted run a Kind.connect at h = tt
  granted run (Act.request Handler.post_workloads input) Kind.create at h = (_, at, tt)
  granted run (Act.request Handler.post_job_scenario input) Kind.create at h = (_, at, tt)
  granted run (Act.round Name.automatic_job_spawn) Kind.create at h =
      let (b, at', p) = Run-Prompted setup Name.automatic_job_spawn run refl at in
      (b, at', prompted_create b p)
  granted run (Act.request Handler.delete_completed input) Kind.delete at h = (_, at, tt)
  granted run (Act.request Handler.delete_pending_last input) Kind.delete at h = (_, at, tt)
  granted run (Act.request Handler.patch_workload input) Kind.patch at h = (_, at, tt)
  granted run (Act.round Name.self_driving) Kind.patch at h =
      let (b, at', p) = Run-Prompted setup Name.self_driving run refl at in
      (b, at', prompted_patch b p)
  granted run a k at h = ground arith

  -- From the start on, the program creates a job only after a POST of a workload or a job scenario or
  -- a PUT that enables the automatic job spawn, deletes a job or a pod only after one of the two
  -- DELETE requests, patches a CPU limit only after a PATCH of a workload or a PUT that enables
  -- self-driving, and never switches the power of a server.
  pub Run-HasOrder :
      {s : System F Q} {acts : List (Act F)}
      → Run setup (new_system config switches now) acts s
      → All (λ e. HasOrder acts (kind e)) s.exporter.log
  unfolding new_system start_metrics
  Run-HasOrder run =
      All-weaker _ (λ e (a, at, of). granted run a (kind e) at of) (Run-IsBlamed setup refl run)
