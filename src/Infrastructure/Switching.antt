-- ===== src/Infrastructure/Switching.antt =====
-- What the handlers do that switch a strategy on or off.
use target_exporter.Prelude.{
  ◌≡◌, ◌⊎◌, inl, inr, refl, sym, ap, ◌∙◌, subst, Bool, Option, none, some, List, arith,
}
use target_exporter.Outcome.{Outcome, ok}
use target_exporter.Scheduling.Strategy.{
  Command, is_start, LoopAt, BaseConcurrentStrategy, new_base_concurrent_strategy, Label, Step,
  Exec,
}
use target_exporter.Scheduling.Strategy.Commands.{last_handed, is_started, Knows, Exec-Agrees}
use target_exporter.Scheduling.Orchestrator.Forwarding.{
  Strategies, arrive, start_automatic_job_spawn, stop_automatic_job_spawn,
  is_automatic_job_spawn_enabled, start_self_driving, stop_self_driving, is_self_driving_enabled,
  start_schedulable, stop_schedulable, is_schedulable_enabled, start_tawa, stop_tawa,
  is_tawa_enabled, start_server_on_off, stop_server_on_off, is_server_on_off_enabled,
  start_reduce_targets, stop_reduce_targets, is_reduce_targets_enabled,
}
use target_exporter.Infrastructure.{Response, Answer, Body, reply}
use target_exporter.Infrastructure.SwitchHandlers.{
  Controls, get_automatic_job_spawn, put_automatic_job_spawn, Request, get_self_driving,
  put_self_driving, get_schedulable, put_schedulable, get_tawa, put_tawa, get_server_on_off,
  put_server_on_off, get_reduce_targets, put_reduce_targets,
}

-- The names in the paths of the API.
pub data Name : Type 0 where
  self_driving schedulable tawa server_on_off reduce_targets automatic_job_spawn : Name

abbrev pub strategy_of : Name → Controls → BaseConcurrentStrategy
strategy_of Name.self_driving t = t.o.self_driving
strategy_of Name.schedulable t = t.o.schedulable
strategy_of Name.tawa t = t.o.tawa
strategy_of Name.server_on_off t = t.o.server_on_off
strategy_of Name.reduce_targets t = t.o.reduce_targets
strategy_of Name.automatic_job_spawn t = t.automatic_job_spawn

abbrev pub replaced : Name → BaseConcurrentStrategy → Controls → Controls
replaced Name.self_driving s t = record t { o = record t.o { self_driving = s } }
replaced Name.schedulable s t = record t { o = record t.o { schedulable = s } }
replaced Name.tawa s t = record t { o = record t.o { tawa = s } }
replaced Name.server_on_off s t = record t { o = record t.o { server_on_off = s } }
replaced Name.reduce_targets s t = record t { o = record t.o { reduce_targets = s } }
replaced Name.automatic_job_spawn s t = record t { automatic_job_spawn = s }

pub strategy_of-replaced :
    (k : Name) (s : BaseConcurrentStrategy) (o : Controls) → strategy_of k (replaced k s o) ≡ s
strategy_of-replaced Name.self_driving s o = refl
strategy_of-replaced Name.schedulable s o = refl
strategy_of-replaced Name.tawa s o = refl
strategy_of-replaced Name.server_on_off s o = refl
strategy_of-replaced Name.reduce_targets s o = refl
strategy_of-replaced Name.automatic_job_spawn s o = refl

pub replaced-others :
    (j k : Name) (s : BaseConcurrentStrategy) (o : Controls)
    → (j ≡ k) ⊎ (strategy_of j (replaced k s o) ≡ strategy_of j o)
replaced-others Name.self_driving Name.self_driving s o = inl refl
replaced-others _ Name.self_driving s o = inr refl
replaced-others Name.schedulable Name.schedulable s o = inl refl
replaced-others _ Name.schedulable s o = inr refl
replaced-others Name.tawa Name.tawa s o = inl refl
replaced-others _ Name.tawa s o = inr refl
replaced-others Name.server_on_off Name.server_on_off s o = inl refl
replaced-others _ Name.server_on_off s o = inr refl
replaced-others Name.reduce_targets Name.reduce_targets s o = inl refl
replaced-others _ Name.reduce_targets s o = inr refl
replaced-others Name.automatic_job_spawn Name.automatic_job_spawn s o = inl refl
replaced-others _ Name.automatic_job_spawn s o = inr refl

-- The goroutine is not between taking a command and setting its variable.
abbrev pub IsSettled : Option LoopAt → Type 0
IsSettled (some (LoopAt.received c)) = ⊥
IsSettled _ = Unit

-- A caller has arrived at the one strategy, and the others are as before.
abbrev pub Reaches : Name → Command → Controls → Controls → Type 0
Reaches k c o o' =
    Step (strategy_of k o) (Label.called c) (strategy_of k o')
    × ((j : Name) → (j ≡ k) ⊎ (strategy_of j o' ≡ strategy_of j o))

replaced-Reaches :
    (k : Name) (c : Command) (o : Controls)
    → Reaches k c o (replaced k (arrive c (strategy_of k o)) o)
unfolding arrive
replaced-Reaches k c o = (
  subst (Step (strategy_of k o) (Label.called c)) (sym (strategy_of-replaced k _ o))
      (Step.call (strategy_of k o) c),
  (λ j. replaced-others j k _ o),
)

settled :
    (labels : List Label) (loop : Option LoopAt) (run initialized : Bool)
    → IsSettled loop
    → Knows labels loop run initialized
    → run ≡ is_started (last_handed labels)
settled labels none run initialized i (a, off, b) = ground arith
settled labels (some LoopAt.polling) run initialized i h = h.1
settled labels (some (LoopAt.received c)) run initialized i h = absurd i
settled labels (some LoopAt.deciding) run initialized i h = h.1
settled labels (some LoopAt.reconciling) run initialized i h = h.1
settled labels (some LoopAt.sleeping) run initialized i h = h.1

abbrev with_o : {A : Type 0} → Controls → A × Strategies → A × Controls
with_o t (answer, o) = (answer, record t { o = o })

abbrev with_spawn : {A : Type 0} → Controls → A × BaseConcurrentStrategy → A × Controls
with_spawn t (answer, s) = (answer, record t { automatic_job_spawn = s })

module _ {F : Type 0} where
  abbrev pub put : Name → Request → Controls → Outcome (Answer F) × Controls
  put Name.self_driving request t = with_o t (put_self_driving request t.o)
  put Name.schedulable request t = with_o t (put_schedulable request t.o)
  put Name.tawa request t = with_o t (put_tawa request t.o)
  put Name.server_on_off request t = with_o t (put_server_on_off request t.o)
  put Name.reduce_targets request t = with_o t (put_reduce_targets request t.o)
  put Name.automatic_job_spawn request t =
      with_spawn t (put_automatic_job_spawn request t.automatic_job_spawn)

  abbrev pub get : Name → Controls → Option (Response F)
  get Name.self_driving t = get_self_driving t.o
  get Name.schedulable t = get_schedulable t.o
  get Name.tawa t = get_tawa t.o
  get Name.server_on_off t = get_server_on_off t.o
  get Name.reduce_targets t = get_reduce_targets t.o
  get Name.automatic_job_spawn t = get_automatic_job_spawn t.automatic_job_spawn

  pub put_lem :
      (k : Name) (c : Command) (o : Controls)
      → put k (ok (is_start c)) o ≡ (
        ok (Answer.on_return (reply 200 Body.success)),
        replaced k (arrive c (strategy_of k o)) o,
      )
  unfolding put_automatic_job_spawn start_automatic_job_spawn stop_automatic_job_spawn
      put_self_driving put_schedulable put_tawa put_server_on_off put_reduce_targets
      start_self_driving stop_self_driving start_schedulable stop_schedulable start_tawa stop_tawa
      start_server_on_off stop_server_on_off start_reduce_targets stop_reduce_targets
  put_lem Name.self_driving Command.start o = refl
  put_lem Name.self_driving Command.stop o = refl
  put_lem Name.schedulable Command.start o = refl
  put_lem Name.schedulable Command.stop o = refl
  put_lem Name.tawa Command.start o = refl
  put_lem Name.tawa Command.stop o = refl
  put_lem Name.server_on_off Command.start o = refl
  put_lem Name.server_on_off Command.stop o = refl
  put_lem Name.reduce_targets Command.start o = refl
  put_lem Name.reduce_targets Command.stop o = refl
  put_lem Name.automatic_job_spawn Command.start o = refl
  put_lem Name.automatic_job_spawn Command.stop o = refl

  -- A PUT with `enabled` makes one call at the strategy that its path names, of Start if the field is
  -- true and else of Stop, and none at the other strategies; when the call returns, the response says success.
  pub put-Reaches :
      (k : Name) (c : Command) (o : Controls)
      → ((put k (ok (is_start c)) o).0 ≡ ok (Answer.on_return (reply 200 Body.success)))
        × Reaches k c o (put k (ok (is_start c)) o).1
  put-Reaches k c o = rw (put_lem k c o) (refl, replaced-Reaches k c o)

  get_lem :
      (k : Name) (o : Controls) → get k o ≡ reply 200 (Body.enabled (strategy_of k o).is_running)
  unfolding get_automatic_job_spawn is_automatic_job_spawn_enabled get_self_driving get_schedulable
      get_tawa get_server_on_off get_reduce_targets is_self_driving_enabled is_schedulable_enabled
      is_tawa_enabled is_server_on_off_enabled is_reduce_targets_enabled
  get_lem Name.self_driving o = refl
  get_lem Name.schedulable o = refl
  get_lem Name.tawa o = refl
  get_lem Name.server_on_off o = refl
  get_lem Name.reduce_targets o = refl
  get_lem Name.automatic_job_spawn o = refl

  -- A GET answers whether the last command that the strategy has taken is Start, in whatever order the
  -- calls were made, if the goroutine is not between taking a command and setting its variable.
  pub get-last_handed :
      (k : Name) (o : Controls) (labels : List Label)
      → Exec new_base_concurrent_strategy labels (strategy_of k o)
      → IsSettled (strategy_of k o).loop
      → get k o ≡ reply 200 (Body.enabled (is_started (last_handed labels)))
  get-last_handed k o labels steps i =
      let h = Exec-Agrees steps in
      let s = strategy_of k o in
      get_lem k o
      ∙ ap (λ b. reply 200 (Body.enabled b))
          (h.same ∙ settled labels s.loop s.run s.initialized i h.knows)

pub put-arrive :
    (F : Type 0) (k : Name) (c : Command) (o : Controls)
    → strategy_of k (put {F = F} k (ok (is_start c)) o).1 ≡ arrive c (strategy_of k o)
put-arrive F k c o =
    ap (λ r. strategy_of k r.1) (put_lem {F = F} k c o) ∙ strategy_of-replaced k _ o
