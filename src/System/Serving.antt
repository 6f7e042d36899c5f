-- ===== src/System/Serving.antt =====
-- The answer to an HTTP request by the engine of StartApi in pkg/infrastructure/routes.go: the
-- recovery, the CORS middleware where the flag asks for it, and the handler of the route. gin and its
-- recovery are an argument: which route a request has, what BindJSON and the query give of it, and
-- which statuses are written for a panic and where there is no route.
use target_exporter.Prelude.{
  ℕ, ◌≡◌, Bool, true, false, String, Option, none, some, List, Dict, In, if◌then◌else◌,
}
use target_exporter.Float.{Float64}
use target_exporter.Outcome.{Outcome, ok, err, panic}
use target_exporter.World.{Quantity}
use target_exporter.Infrastructure.{Response, Answer}
use target_exporter.Infrastructure.Routes.{Handler, Input, Route, routes}
use target_exporter.Middlewares.{Writer, new_writer, cors_disabled}
use target_exporter.System.{System, Setup, handle}

pub record HttpRequest : Type 0 where
  pub method : String
  pub path : String
  pub query : String
  pub body : String

-- The status, the headers, and what the handler writes. A handler that is waiting is in a call of
-- Start or Stop; the response is the one that it writes when that call returns, and there is none
-- if it never does.
pub record HttpResponse (F : Type 0) : Type 0 where
  pub status : ℕ
  pub headers : Dict String
  pub written : Option (Response F)
  pub is_waiting : Bool

pub record Gin (F : Type 0) : Type 0 where
  pub find : List Route → String → String → Option Handler
  pub bind : HttpRequest → Input F
  pub recovered : ℕ
  pub not_found : ℕ

module _ {F : Type 0} where
  -- The routes have different methods and paths; gin finds a registered one, and no other.
  pub record IsRouter (gin : Gin F) : Type 0 where
    pub finds : (r : Route) → In r routes → gin.find routes r.method r.path ≡ some r.handler
    pub found :
        (method path : String) (h : Handler)
        → gin.find routes method path ≡ some h
        → (r : Route) × In r routes × (r.method ≡ method) × (r.path ≡ path) × (r.handler ≡ h)

  -- A handler that writes nothing leaves gin's status 200.
  abbrev status_of : Option (Response F) → ℕ
  status_of none = 200
  status_of (some r) = r.status

  -- What the recovery makes of the handler's end; the handlers return no errors.
  abbrev pub recovery : Gin F → Writer → Outcome (Answer F) → HttpResponse F
  recovery gin w (ok (Answer.at_once response)) = record {
    status = status_of response;
    headers = w.headers;
    written = response;
    is_waiting = false;
  }
  recovery gin w (ok (Answer.on_return response)) = record {
    status = status_of response;
    headers = w.headers;
    written = response;
    is_waiting = true;
  }
  recovery gin w (err e) = record {
    status = 200;
    headers = w.headers;
    written = none;
    is_waiting = false;
  }
  recovery gin w panic = record {
    status = gin.recovered;
    headers = w.headers;
    written = none;
    is_waiting = false;
  }

module _ {F Q : Type 0} ⦃f : Float64 F⦄ ⦃q : Quantity Q⦄ (setup : Setup F Q) (gin : Gin F) where
  unfoldable pub dispatch : HttpRequest → Writer → System F Q → HttpResponse F × System F Q
  dispatch request w s = elim (gin.find routes request.method request.path) [
    | none ↦ (
      record { status = gin.not_found; headers = w.headers; written = none; is_waiting = false },
      s,
    )
    | some h ↦ let (answer, s') = handle setup h (gin.bind request) s in (recovery gin w answer, s')
  ]

  -- The middlewares that StartApi installs, and then the route.
  unfoldable pub serve : Bool → HttpRequest → System F Q → HttpResponse F × System F Q
  serve is_cors_disabled request s =
      let w = if is_cors_disabled then cors_disabled request.method new_writer else new_writer in
      elim w.aborted [
        | some status ↦
            (record { status = status; headers = w.headers; written = none; is_waiting = false }, s)
        | none ↦ dispatch request w s
      ]
