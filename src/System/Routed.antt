-- ===== src/System/Routed.antt =====
-- The PUT and GET requests that switch the strategies, from the path to the strategy.
use target_exporter.Prelude.{
  ◌≡◌, refl, sym, subst, inl, inr, Bool, true, false, ℕ, zero, suc, String, some, List, [], ◌∷◌, In,
  get_elem?,
}
use target_exporter.Float.{Float64}
use target_exporter.Outcome.{Outcome, ok}
use target_exporter.World.{Quantity}
use target_exporter.Scheduling.Strategy.{Command, is_start}
use target_exporter.Infrastructure.SwitchHandlers.{Controls}
use target_exporter.Infrastructure.Switching.{Name, put, put-Reaches, Reaches}
use target_exporter.Infrastructure.Routes.{Handler, Route, routes}
use target_exporter.Middlewares.{Writer, new_writer, cors_disabled}
use target_exporter.System.{System, Setup, handle}
use target_exporter.System.Serving.{HttpRequest, Gin, IsRouter, recovery, serve}
use target_exporter.System.Served.{dispatch_found}

-- The paths of the strategies.
abbrev pub path_of : Name → String
path_of Name.self_driving = "/api/v1/self-driving"
path_of Name.tawa = "/api/v1/tawa"
path_of Name.schedulable = "/api/v1/schedulable"
path_of Name.automatic_job_spawn = "/api/v1/automatic-job-spawn"
path_of Name.server_on_off = "/api/v1/server-on-off"
path_of Name.reduce_targets = "/api/v1/reduce-targets"

get_elem?-In : {A : Type 0} (xs : List A) (n : ℕ) (x : A) → get_elem? xs n ≡ some x → In x xs
get_elem?-In [] n x e = cc
get_elem?-In (y ∷ ys) zero x e = inl cc
get_elem?-In (y ∷ ys) (suc n) x e = inr (get_elem?-In ys n x e)

abbrev put_route : Name → Route
put_route k = record { method = "PUT"; path = path_of k; handler = Handler.put_switch k }

abbrev get_route : Name → Route
get_route k = record { method = "GET"; path = path_of k; handler = Handler.get_switch k }

put_route-In : (k : Name) → In (put_route k) routes
put_route-In Name.self_driving = get_elem?-In routes 10 _ refl
put_route-In Name.tawa = get_elem?-In routes 12 _ refl
put_route-In Name.schedulable = get_elem?-In routes 14 _ refl
put_route-In Name.automatic_job_spawn = get_elem?-In routes 16 _ refl
put_route-In Name.server_on_off = get_elem?-In routes 18 _ refl
put_route-In Name.reduce_targets = get_elem?-In routes 20 _ refl

get_route-In : (k : Name) → In (get_route k) routes
get_route-In Name.self_driving = get_elem?-In routes 9 _ refl
get_route-In Name.tawa = get_elem?-In routes 11 _ refl
get_route-In Name.schedulable = get_elem?-In routes 13 _ refl
get_route-In Name.automatic_job_spawn = get_elem?-In routes 15 _ refl
get_route-In Name.server_on_off = get_elem?-In routes 17 _ refl
get_route-In Name.reduce_targets = get_elem?-In routes 19 _ refl

abbrev pub request_for : String → Name → String → HttpRequest
request_for method k body = record { method = method; path = path_of k; query = ""; body = body }

module _ {F Q : Type 0} ⦃f : Float64 F⦄ ⦃q : Quantity Q⦄ (setup : Setup F Q) (gin : Gin F)
    (router : IsRouter gin) where
  serve_put :
      (flag : Bool) (k : Name) (body : String) (s : System F Q)
      → (w : Writer) × (serve setup gin flag (request_for "PUT" k body) s ≡ (
        recovery gin w
            (handle setup (Handler.put_switch k) (gin.bind (request_for "PUT" k body)) s).0,
        (handle setup (Handler.put_switch k) (gin.bind (request_for "PUT" k body)) s).1,
      ))
  unfolding serve cors_disabled
  serve_put false k body s =
      (new_writer, dispatch_found setup gin _ _ s _ (router.finds (put_route k) (put_route-In k)))
  serve_put true k body s = (
    cors_disabled "PUT" new_writer,
    dispatch_found setup gin _ _ s _ (router.finds (put_route k) (put_route-In k)),
  )

  put_answered :
      (k : Name) (c : Command) (enabled : Outcome Bool) (w : Writer) (o : Controls)
      → enabled ≡ ok (is_start c)
      → Reaches k c o (put {F = F} k enabled o).1
        × ((recovery gin w (put k enabled o).0).is_waiting ≡ true)
        × ((recovery gin w (put k enabled o).0).status ≡ 200)
  put_answered k c enabled w o e =
      rw e (let (answer, reaches) = put-Reaches k c o in (reaches, rw answer refl, rw answer refl))

  -- After a PUT to the path of a strategy, with a body that gives `enabled`, one caller has arrived at
  -- that strategy, at Start if the field is true and else at Stop, and the other strategies are as
  -- before. The handler waits for the call, which need not return; the response that it writes if
  -- the call returns has status 200. This holds with the CORS flag and without.
  pub serve-Reaches :
      (flag : Bool) (k : Name) (c : Command) (body : String) (s : System F Q)
      → (gin.bind (request_for "PUT" k body)).enabled ≡ ok (is_start c)
      → Reaches k c s.controls (serve setup gin flag (request_for "PUT" k body) s).1.controls
        × ((serve setup gin flag (request_for "PUT" k body) s).0.is_waiting ≡ true)
        × ((serve setup gin flag (request_for "PUT" k body) s).0.status ≡ 200)
  unfolding handle
  serve-Reaches flag k c body s e =
      let (w, is) = serve_put flag k body s in
      subst
        (λ r. Reaches k c s.controls r.1.controls × (r.0.is_waiting ≡ true) × (r.0.status ≡ 200))
        (sym is) (put_answered k c (gin.bind (request_for "PUT" k body)).enabled w s.controls e)
