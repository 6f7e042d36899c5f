-- ===== src/Scheduling/Strategy.antt =====
-- pkg/scheduling/strategy.go: BaseConcurrentStrategy. Callers of Start and Stop meet at the mutex and
-- hand their command over an unbuffered channel to the goroutine of `run`; each interleaving is a
-- sequence of steps. The channel is never closed, so the branch for a closed one is left out. The
-- deferred Unlock is part of the step in which the channel takes the command. What `reconcile` does
-- is left open: `finish` is its return, and the executions in which it never returns are those that
-- have no `finish` after a `work`.
pub mod Commands
pub mod Blocking
pub mod Refinement
pub mod Unprompted
use target_exporter.Prelude.{
  ◌≡◌, Bool, true, false, Option, none, some, List, [], ◌∷◌, ◌++◌, if◌then◌else◌,
}

pub data Command : Type 0 where
  start stop : Command

abbrev pub is_start : Command → Bool
is_start Command.start = true
is_start Command.stop = false

-- Where the goroutine of `run` stands: before its `select`, after taking a command, before `if run`,
-- in `reconcile`, or in the pause.
pub data LoopAt : Type 0 where
  polling : LoopAt
  received : Command → LoopAt
  deciding reconciling sleeping : LoopAt

-- The struct's fields, the goroutine with its variable `run` once there is one, and the callers: those
-- that wait for the mutex, that hold it, and that wait at the channel.
pub record BaseConcurrentStrategy : Type 0 where
  pub mu : Bool
  pub initialized : Bool
  pub is_running : Bool
  pub loop : Option LoopAt
  pub run : Bool
  pub waiting : List Command
  pub holding : List Command
  pub sending : List Command

abbrev pub new_base_concurrent_strategy : BaseConcurrentStrategy
new_base_concurrent_strategy = record {
  mu = false;
  initialized = false;
  is_running = false;
  loop = none;
  run = false;
  waiting = [];
  holding = [];
  sending = [];
}

-- `c.mu.Lock()` returns.
unfoldable pub take_lock : Command → List Command → BaseConcurrentStrategy → BaseConcurrentStrategy
take_lock c waiting s = record s { mu = true; waiting = waiting; holding = c ∷ s.holding }

-- The body of Start or Stop up to the send.
unfoldable pub announce : Command → List Command → BaseConcurrentStrategy → BaseConcurrentStrategy
announce Command.start holding s =
    if s.initialized
    then record s { holding = holding; sending = Command.start ∷ s.sending }
    else record s {
      initialized = true;
      loop = some LoopAt.polling;
      run = false;
      holding = holding;
      sending = Command.start ∷ s.sending;
    }
announce Command.stop holding s = record s { holding = holding; sending = Command.stop ∷ s.sending }

-- The channel takes the command, and the caller unlocks and returns.
unfoldable pub hand_over : Command → List Command → BaseConcurrentStrategy → BaseConcurrentStrategy
hand_over c sending s = record s { mu = false; loop = some (LoopAt.received c); sending = sending }

unfoldable pub obey : Command → BaseConcurrentStrategy → BaseConcurrentStrategy
obey c s = record s { run = is_start c; is_running = is_start c; loop = some LoopAt.deciding }

abbrev pub goes_to : LoopAt → BaseConcurrentStrategy → BaseConcurrentStrategy
goes_to at s = record s { loop = some at }

-- What a step does that is seen from outside.
pub data Label : Type 0 where
  called handed : Command → Label
  reconciled : Label
  quiet : Label

pub data Step : BaseConcurrentStrategy → Label → BaseConcurrentStrategy → Type 0 where
  call :
      (s : BaseConcurrentStrategy) (c : Command)
      → Step s (Label.called c) (record s { waiting = c ∷ s.waiting })
  lock :
      (s : BaseConcurrentStrategy) (c : Command) (before after : List Command)
      → s.mu ≡ false
      → s.waiting ≡ before ++ (c ∷ after)
      → Step s Label.quiet (take_lock c (before ++ after) s)
  enter :
      (s : BaseConcurrentStrategy) (c : Command) (rest : List Command)
      → s.holding ≡ c ∷ rest
      → Step s Label.quiet (announce c rest s)
  receive :
      (s : BaseConcurrentStrategy) (c : Command) (rest : List Command)
      → s.loop ≡ some LoopAt.polling
      → s.sending ≡ c ∷ rest
      → Step s (Label.handed c) (hand_over c rest s)
  -- The `default` of the select: nobody waits at the channel.
  pass :
      (s : BaseConcurrentStrategy)
      → s.loop ≡ some LoopAt.polling
      → s.sending ≡ []
      → Step s Label.quiet (goes_to LoopAt.deciding s)
  set :
      (s : BaseConcurrentStrategy) (c : Command)
      → s.loop ≡ some (LoopAt.received c)
      → Step s Label.quiet (obey c s)
  work :
      (s : BaseConcurrentStrategy)
      → s.loop ≡ some LoopAt.deciding
      → s.run ≡ true
      → Step s Label.reconciled (goes_to LoopAt.reconciling s)
  rest :
      (s : BaseConcurrentStrategy)
      → s.loop ≡ some LoopAt.deciding
      → s.run ≡ false
      → Step s Label.quiet (goes_to LoopAt.sleeping s)
  finish :
      (s : BaseConcurrentStrategy)
      → s.loop ≡ some LoopAt.reconciling
      → Step s Label.quiet (goes_to LoopAt.sleeping s)
  wake :
      (s : BaseConcurrentStrategy)
      → s.loop ≡ some LoopAt.sleeping
      → Step s Label.quiet (goes_to LoopAt.polling s)

-- The executions from `s`, with the labels from the last one backwards.
pub data Exec (s : BaseConcurrentStrategy) : List Label → BaseConcurrentStrategy → Type 0 where
  here : Exec s [] s
  next :
      {labels : List Label} {l : Label} {t u : BaseConcurrentStrategy}
      → Exec s labels t
      → Step t l u
      → Exec s (l ∷ labels) u
