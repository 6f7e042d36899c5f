-- ===== src/Examples/Served.antt =====
-- The theorems on HTTP requests, applied to a router that looks a route up in the list.
use target_exporter.Prelude.{
  ◌≡◌, ◌≢◌, ◌⊎◌, refl, inl, inr, Bool, true, false, not, ◌&&◌, String, Option, none, some, List, [],
  ◌∷◌, In, ◌==◌, eq_refl, eq_iff, if◌then◌else◌, Bool-cases, arith,
}
use target_exporter.Float.{Thousandths, thousandths_float}
use target_exporter.Scheduling.Strategy.{Command}
use target_exporter.Infrastructure.Switching.{Name, Reaches}
use target_exporter.Infrastructure.Routes.{Handler, Route, routes}
use target_exporter.System.Serving.{HttpRequest, Gin, IsRouter, serve}
use target_exporter.System.Served.{IsPreflight, IsSame, serve-cors_disabled}
use target_exporter.System.Reading.{OnlyReads, serve-OnlyReads}
use target_exporter.System.Routed.{request_for, serve-Reaches}
use target_exporter.Examples.{milli_quantity}
use target_exporter.Examples.Whole.{setup, input, first}

abbrev is_for : String → String → Route → Bool
is_for method path r = (r.method == method) && (r.path == path)

abbrev find_route : List Route → String → String → Option Handler
find_route [] method path = none
find_route (r ∷ rs) method path =
    if is_for method path r then some r.handler else find_route rs method path

abbrev is_new : Route → List Route → Bool
is_new r [] = true
is_new r (x ∷ xs) = not (is_for x.method x.path r) && is_new r xs

abbrev are_distinct : List Route → Bool
are_distinct [] = true
are_distinct (r ∷ rs) = is_new r rs && are_distinct rs

is_new-In :
    (x r : Route) (rs : List Route)
    → is_new x rs ≡ true
    → In r rs
    → is_for r.method r.path x ≡ false
is_new-In x r [] n at = absurd at
is_new-In x r (y ∷ ys) n (inl e) = rw e (ground arith)
is_new-In x r (y ∷ ys) n (inr at) = is_new-In x r ys (ground arith) at

find_route-In :
    (r : Route) (rs : List Route)
    → are_distinct rs ≡ true
    → In r rs
    → find_route rs r.method r.path ≡ some r.handler
find_route-In r [] d at = absurd at
find_route-In r (x ∷ xs) d (inl e) = rw e (ground (arith, eq_refl x.method, eq_refl x.path))
find_route-In r (x ∷ xs) d (inr at) =
    let other : is_for r.method r.path x ≡ false = is_new-In x r xs (ground arith) at in
    rw other (find_route-In r xs (ground arith) at)

find_route-some :
    (rs : List Route) (method path : String) (h : Handler)
    → find_route rs method path ≡ some h
    → (r : Route) × In r rs × (r.method ≡ method) × (r.path ≡ path) × (r.handler ≡ h)
find_route-some [] method path h e = cc
find_route-some (x ∷ xs) method path h e = elim (Bool-cases (is_for method path x)) [
  | inl b ↦ (
    x,
    inl refl,
    (eq_iff x.method method).0 (ground arith),
    (eq_iff x.path path).0 (ground arith),
    (let same = rw b at e in cc),
  )
  | inr b ↦
      let (r, at, m, p, is) = find_route-some xs method path h (rw b at e) in (r, inr at, m, p, is)
]

abbrev gin : Gin Thousandths
gin = record { find = find_route; bind = λ request. input; recovered = 500; not_found = 404 }

gin-IsRouter : IsRouter gin
gin-IsRouter = record {
  finds = λ r at. find_route-In r routes refl at;
  found = find_route-some routes;
}

abbrev options_request : HttpRequest
options_request = record { method = "OPTIONS"; path = "/api/v1/targets"; query = ""; body = "" }

serve-cors_disabled_example :
    ((options_request.method ≡ "OPTIONS") × IsPreflight setup gin options_request first)
    ⊎ ((options_request.method ≢ "OPTIONS")
        × IsSame setup gin
            (serve setup gin true options_request first)
            (serve setup gin false options_request first))
serve-cors_disabled_example = serve-cors_disabled setup gin options_request first

abbrev get_workloads_request : HttpRequest
get_workloads_request = record { method = "GET"; path = "/api/v1/workloads"; query = ""; body = "" }

serve-OnlyReads_example : OnlyReads first (serve setup gin true get_workloads_request first).1
serve-OnlyReads_example =
    serve-OnlyReads setup gin true get_workloads_request first gin-IsRouter refl

serve-Reaches_example :
    Reaches Name.tawa Command.start first.controls
      (serve setup gin true (request_for "PUT" Name.tawa "{}") first).1.controls
    × ((serve setup gin true (request_for "PUT" Name.tawa "{}") first).0.is_waiting ≡ true)
    × ((serve setup gin true (request_for "PUT" Name.tawa "{}") first).0.status ≡ 200)
serve-Reaches_example =
    serve-Reaches setup gin gin-IsRouter true Name.tawa Command.start "{}" first refl
