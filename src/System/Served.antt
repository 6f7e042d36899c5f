-- ===== src/System/Served.antt =====
-- What the HTTP requests do.
use Prim.Native.String.{◌++◌ as append_text}
use target_exporter.Outcome.{Outcome, ok, err, panic}
use target_exporter.Infrastructure.{Answer}
use target_exporter.Prelude.{
  ◌≡◌, ◌≢◌, ◌⊎◌, List, [], ◌∷◌, All, eq_iff, refl, sym, ap, subst, inl, inr, ◌==◌, Bool, Bool-cases,
  true, false, String, some, In, Option-cases, lookup,
}
use target_exporter.Float.{Float64}
use target_exporter.World.{Quantity}
use target_exporter.Infrastructure.Routes.{Handler, Route, routes}
use target_exporter.Middlewares.{Writer, new_writer, cors_disabled}
use target_exporter.System.{System, Setup, handle}
use target_exporter.System.Running.{Act, Step}
use target_exporter.System.Serving.{
  HttpRequest, HttpResponse, Gin, IsRouter, recovery, dispatch, serve,
}

-- The texts, with a comma and a space between each two.
abbrev pub comma_separated : List String → String
comma_separated [] = ""
comma_separated (x ∷ xs) = elim xs [
  | [] ↦ x
  | y ∷ ys ↦ append_text x (append_text ", " (comma_separated xs))
]

abbrev allowed_methods : List String
allowed_methods = "POST" ∷ "DELETE" ∷ "OPTIONS" ∷ "GET" ∷ "PUT" ∷ "PATCH" ∷ []

module _ {F : Type 0} where
  -- Two responses that differ at most in their headers.
  abbrev pub IsSameResponse : HttpResponse F → HttpResponse F → Type 0
  IsSameResponse a b =
      (a.status ≡ b.status) × (a.written ≡ b.written) × (a.is_waiting ≡ b.is_waiting)

  recovery-Same :
      (gin : Gin F) (w w' : Writer) (o : Outcome (Answer F))
      → IsSameResponse (recovery gin w o) (recovery gin w' o)
  recovery-Same gin w w' (ok (Answer.at_once r)) = (refl, refl, refl)
  recovery-Same gin w w' (ok (Answer.on_return r)) = (refl, refl, refl)
  recovery-Same gin w w' (err e) = (refl, refl, refl)
  recovery-Same gin w w' panic = (refl, refl, refl)

module _ {F Q : Type 0} ⦃f : Float64 F⦄ ⦃q : Quantity Q⦄ (setup : Setup F Q) (gin : Gin F) where
  -- The two answers differ at most in the headers, and leave the same state.
  abbrev pub IsSame : HttpResponse F × System F Q → HttpResponse F × System F Q → Type 0
  IsSame a b = IsSameResponse a.0 b.0 × (a.1 ≡ b.1)

  -- The request does nothing, or its handler does what it does.
  abbrev pub Does : HttpRequest → System F Q → HttpResponse F × System F Q → Type 0
  Does request s out =
      (out.1 ≡ s)
      ⊎ ((h : Handler) × (gin.find routes request.method request.path ≡ some h)
          × (out.1 ≡ (handle setup h (gin.bind request) s).1))

  pub dispatch_found :
      (request : HttpRequest) (w : Writer) (s : System F Q) (h : Handler)
      → gin.find routes request.method request.path ≡ some h
      → dispatch setup gin request w s ≡ (
        recovery gin w (handle setup h (gin.bind request) s).0,
        (handle setup h (gin.bind request) s).1,
      )
  unfolding dispatch
  dispatch_found request w s h e = rw (e, dispatch) refl

  dispatch-Does :
      (request : HttpRequest) (w : Writer) (s : System F Q)
      → Does request s (dispatch setup gin request w s)
  unfolding dispatch
  dispatch-Does request w s = elim (Option-cases (gin.find routes request.method request.path)) [
    | inl e ↦ rw (e, dispatch) (inl refl)
    | inr (h, e) ↦ inr (h, e, ap (λ r. r.1) (dispatch_found request w s h e))
  ]

  pub serve-Does :
      (flag : Bool) (request : HttpRequest) (s : System F Q)
      → Does request s (serve setup gin flag request s)
  unfolding serve cors_disabled
  serve-Does false request s = dispatch-Does request new_writer s
  serve-Does true request s = elim (Bool-cases (request.method == "OPTIONS")) [
    | inl e ↦ rw (e, serve) (inl refl)
    | inr e ↦ rw (e, serve) (dispatch-Does request _ s)
  ]

  allowed-In : All (λ r. In r.method allowed_methods) routes
  allowed-In = (
    got,
    (
      posted,
      (
        got,
        (
          posted,
          (
            patch,
            (
              del,
              (
                del,
                (
                  got,
                  (
                    got,
                    (
                      got,
                      (
                        put,
                        (
                          got,
                          (
                            put,
                            (got, (put, (got, (put, (got, (put, (got, (put, (posted, tt))))))))),
                          ),
                        ),
                      ),
                    ),
                  ),
                ),
              ),
            ),
          ),
        ),
      ),
    ),
  )
    where
      got : In "GET" allowed_methods
      got = inr (inr (inr (inl refl)))

      put : In "PUT" allowed_methods
      put = inr (inr (inr (inr (inl refl))))

      posted : In "POST" allowed_methods
      posted = inl refl

      patch : In "PATCH" allowed_methods
      patch = inr (inr (inr (inr (inr (inl refl)))))

      del : In "DELETE" allowed_methods
      del = inr (inl refl)

  -- The headers aside, the response does not depend on the writer.
  dispatch-Same :
      (request : HttpRequest) (w w' : Writer) (s : System F Q)
      → IsSame (dispatch setup gin request w s) (dispatch setup gin request w' s)
  unfolding dispatch
  dispatch-Same request w w' s = elim (Option-cases (gin.find routes request.method request.path)) [
    | inl e ↦ rw (e, dispatch) ((refl, refl, refl), refl)
    | inr (h, e) ↦
        rw (dispatch_found request w s h e, dispatch_found request w' s h e)
          (recovery-Same gin w w' (handle setup h (gin.bind request) s).0, refl)
  ]

  -- The answer to an OPTIONS request by the middleware.
  abbrev pub IsPreflight : HttpRequest → System F Q → Type 0
  IsPreflight request s =
      ((serve setup gin true request s).1 ≡ s)
      × ((serve setup gin true request s).0.status ≡ 204)
      × ((methods : List String) × (lookup "Access-Control-Allow-Methods"
              (serve setup gin true request s).0.headers
            ≡ some (comma_separated methods))
          × All (λ r. In r.method methods) routes)

  options-IsPreflight :
      (request : HttpRequest) (s : System F Q)
      → IsPreflight (record request { method = "OPTIONS" }) s
  unfolding serve cors_disabled
  options-IsPreflight request s = (refl, refl, (allowed_methods, refl, allowed-In))

  -- With the CORS flag, an OPTIONS request changes nothing and is answered with status 204 and a list
  -- of methods which has the method of each route. Any other request is handled as without the
  -- flag, and the response is the same but for the headers.
  pub serve-cors_disabled :
      (request : HttpRequest) (s : System F Q)
      → ((request.method ≡ "OPTIONS") × IsPreflight request s)
        ⊎ ((request.method ≢ "OPTIONS")
            × IsSame (serve setup gin true request s) (serve setup gin false request s))
  unfolding serve cors_disabled
  serve-cors_disabled request s = elim (Bool-cases (request.method == "OPTIONS")) [
    | inl e ↦
        let is = (eq_iff request.method "OPTIONS").0 e in
        inl (
          is,
          subst (λ m. IsPreflight (record request { method = m }) s) (sym is)
              (options-IsPreflight request s),
        )
    | inr e ↦ inr (
      (λ is. cc ((eq_iff request.method "OPTIONS").1 is)),
      rw (e, serve, cors_disabled) (dispatch-Same request _ new_writer s),
    )
  ]

  -- A request is handled as a step of the program by the handler that is registered for its method and
  -- path, or it changes nothing and makes no call.
  pub serve-Step :
      (flag : Bool) (request : HttpRequest) (s : System F Q)
      → IsRouter gin
      → ((serve setup gin flag request s).1 ≡ s)
        ⊎ ((r : Route) × In r routes
            × (r.method ≡ request.method)
            × (r.path ≡ request.path)
            × Step setup s
                (Act.request r.handler (gin.bind request))
                (serve setup gin flag request s).1)
  serve-Step flag request s laws = elim (serve-Does flag request s) [
    | inl same ↦ inl same
    | inr (h, e, same) ↦
        let (r, at, m, p, is) = laws.found request.method request.path h e in
        inr (
          r,
          at,
          m,
          p,
          rw same (
              subst
                (λ g.
                  Step setup s (Act.request r.handler (gin.bind request))
                    (handle setup g (gin.bind request) s).1)
                is (Step.handle_request r.handler (gin.bind request))),
        )
  ]
