-- ===== src/Infrastructure/SwitchHandlers.antt =====
-- The handlers of routes.go that switch a strategy on or off. A PUT's effect is that it calls Start or
-- Stop; its response is written when that call returns, which it need not do.
use target_exporter.Prelude.{Bool, true, false, Option}
use target_exporter.Outcome.{Outcome, ok, err, panic}
use target_exporter.Scheduling.Strategy.{BaseConcurrentStrategy}
use target_exporter.Scheduling.Orchestrator.Forwarding.{
  Strategies, start_automatic_job_spawn, stop_automatic_job_spawn, is_automatic_job_spawn_enabled,
  start_self_driving, stop_self_driving, is_self_driving_enabled, start_schedulable,
  stop_schedulable, is_schedulable_enabled, start_tawa, stop_tawa, is_tawa_enabled,
  start_server_on_off, stop_server_on_off, is_server_on_off_enabled, start_reduce_targets,
  stop_reduce_targets, is_reduce_targets_enabled,
}
use target_exporter.Infrastructure.{Response, Answer, Body, reply}

-- The fields of the exporter that hold strategies.
pub record Controls : Type 0 where
  pub o : Strategies
  pub automatic_job_spawn : BaseConcurrentStrategy

-- What BindJSON makes of the request: the field `enabled`.
abbrev pub Request : Type 0
Request = Outcome Bool

module _ {F : Type 0} where
  unfoldable pub get_self_driving : Strategies → Option (Response F)
  get_self_driving o = reply 200 (Body.enabled (is_self_driving_enabled o))

  unfoldable pub put_self_driving : Request → Strategies → Outcome (Answer F) × Strategies
  put_self_driving (ok true) o =
      (ok (Answer.on_return (reply 200 Body.success)), start_self_driving o)
  put_self_driving (ok false) o =
      (ok (Answer.on_return (reply 200 Body.success)), stop_self_driving o)
  put_self_driving (err e) o = (ok (Answer.at_once (reply 400 (Body.error e))), o)
  put_self_driving panic o = (panic, o)

  unfoldable pub get_schedulable : Strategies → Option (Response F)
  get_schedulable o = reply 200 (Body.enabled (is_schedulable_enabled o))

  unfoldable pub put_schedulable : Request → Strategies → Outcome (Answer F) × Strategies
  put_schedulable (ok true) o =
      (ok (Answer.on_return (reply 200 Body.success)), start_schedulable o)
  put_schedulable (ok false) o =
      (ok (Answer.on_return (reply 200 Body.success)), stop_schedulable o)
  put_schedulable (err e) o = (ok (Answer.at_once (reply 400 (Body.error e))), o)
  put_schedulable panic o = (panic, o)

  unfoldable pub get_tawa : Strategies → Option (Response F)
  get_tawa o = reply 200 (Body.enabled (is_tawa_enabled o))

  unfoldable pub put_tawa : Request → Strategies → Outcome (Answer F) × Strategies
  put_tawa (ok true) o = (ok (Answer.on_return (reply 200 Body.success)), start_tawa o)
  put_tawa (ok false) o = (ok (Answer.on_return (reply 200 Body.success)), stop_tawa o)
  put_tawa (err e) o = (ok (Answer.at_once (reply 400 (Body.error e))), o)
  put_tawa panic o = (panic, o)

  unfoldable pub get_server_on_off : Strategies → Option (Response F)
  get_server_on_off o = reply 200 (Body.enabled (is_server_on_off_enabled o))

  unfoldable pub put_server_on_off : Request → Strategies → Outcome (Answer F) × Strategies
  put_server_on_off (ok true) o =
      (ok (Answer.on_return (reply 200 Body.success)), start_server_on_off o)
  put_server_on_off (ok false) o =
      (ok (Answer.on_return (reply 200 Body.success)), stop_server_on_off o)
  put_server_on_off (err e) o = (ok (Answer.at_once (reply 400 (Body.error e))), o)
  put_server_on_off panic o = (panic, o)

  unfoldable pub get_reduce_targets : Strategies → Option (Response F)
  get_reduce_targets o = reply 200 (Body.enabled (is_reduce_targets_enabled o))

  unfoldable pub put_reduce_targets : Request → Strategies → Outcome (Answer F) × Strategies
  put_reduce_targets (ok true) o =
      (ok (Answer.on_return (reply 200 Body.success)), start_reduce_targets o)
  put_reduce_targets (ok false) o =
      (ok (Answer.on_return (reply 200 Body.success)), stop_reduce_targets o)
  put_reduce_targets (err e) o = (ok (Answer.at_once (reply 400 (Body.error e))), o)
  put_reduce_targets panic o = (panic, o)

  -- The strategy of the automatic job spawn is a field of the exporter.
  unfoldable pub get_automatic_job_spawn : BaseConcurrentStrategy → Option (Response F)
  get_automatic_job_spawn s = reply 200 (Body.enabled (is_automatic_job_spawn_enabled s))

  unfoldable pub put_automatic_job_spawn :
      Request → BaseConcurrentStrategy → Outcome (Answer F) × BaseConcurrentStrategy
  put_automatic_job_spawn (ok true) s =
      (ok (Answer.on_return (reply 200 Body.success)), start_automatic_job_spawn s)
  put_automatic_job_spawn (ok false) s =
      (ok (Answer.on_return (reply 200 Body.success)), stop_automatic_job_spawn s)
  put_automatic_job_spawn (err e) s = (ok (Answer.at_once (reply 400 (Body.error e))), s)
  put_automatic_job_spawn panic s = (panic, s)
