-- ===== src/System/Reading.antt =====
-- What a GET does.
use target_exporter.Prelude.{
  ◌≡◌, refl, sym, ◌∙◌, ap, subst, append-nil, inl, inr, ◌==◌, ◌&&◌, eq_iff, Bool, true, false, not,
  ◌||◌, List, [], ◌∷◌, ◌++◌, All, In, arith,
}
use target_exporter.Float.{Float64}
use target_exporter.World.{Quantity, Log}
use target_exporter.Infrastructure.Routes.{Handler, Input, Route, routes}
use target_exporter.System.{System, Setup, handle}
use target_exporter.System.Powers.{IsOf, reads}
use target_exporter.System.Blame.{Adds, handle-Adds}
use target_exporter.System.Serving.{HttpRequest, Gin, IsRouter, serve}
use target_exporter.System.Served.{serve-Does}

-- The handlers that only read.
abbrev is_reading : Handler → Bool
is_reading Handler.get_targets = true
is_reading Handler.get_workloads = true
is_reading Handler.get_cpu_usage = true
is_reading Handler.get_cpu_diff = true
is_reading (Handler.get_switch k) = true
is_reading _ = false

abbrev reads_on_get : Route → Bool
reads_on_get r = not (r.method == "GET") || is_reading r.handler

abbrev all_of : (Route → Bool) → List Route → Bool
all_of p [] = true
all_of p (r ∷ rs) = p r && all_of p rs

all_of-In :
    (p : Route → Bool) (r : Route) (rs : List Route) → all_of p rs ≡ true → In r rs → p r ≡ true
all_of-In p r [] h at = absurd at
all_of-In p r (x ∷ rs) h (inl e) = rw e (ground arith)
all_of-In p r (x ∷ rs) h (inr at) = all_of-In p r rs (ground arith) at

get_reads : (r : Route) → In r routes → r.method ≡ "GET" → is_reading r.handler ≡ true
get_reads r at e =
    let checked : reads_on_get r ≡ true = all_of-In reads_on_get r routes refl at in
    let is_get : (r.method == "GET") ≡ true = (eq_iff r.method "GET").1 e in
    ground (arith, checked, is_get)

module _ {F Q : Type 0} where
  abbrev pub with_log : Log Q → System F Q → System F Q
  with_log log s = record s { exporter = record s.exporter { log = log } }

  -- Nothing has changed but that calls were made which read.
  abbrev pub OnlyReads : System F Q → System F Q → Type 0
  OnlyReads s t = (new : Log Q) × (t ≡ with_log (s.exporter.log ++ new) s) × All (IsOf reads) new

  unchanged : (s : System F Q) → OnlyReads s s
  unchanged s = ([], ap (λ log. with_log log s) (sym (append-nil s.exporter.log)), tt)

  calls_only :
      (s : System F Q) (log : Log Q)
      → Adds reads s.exporter.log (with_log log s)
      → OnlyReads s (with_log log s)
  calls_only s log (new, same, fine) = (new, ap (λ l. with_log l s) same, fine)

module _ {F Q : Type 0} ⦃f : Float64 F⦄ ⦃q : Quantity Q⦄ (setup : Setup F Q) where
  reading-OnlyReads :
      (h : Handler) (input : Input F) (s : System F Q)
      → is_reading h ≡ true
      → OnlyReads s (handle setup h input s).1
  unfolding handle
  reading-OnlyReads Handler.get_targets input s e = unchanged s
  reading-OnlyReads (Handler.get_switch k) input s e = unchanged s
  reading-OnlyReads Handler.get_workloads input s e =
      calls_only s _ (handle-Adds setup Handler.get_workloads input s)
  reading-OnlyReads Handler.get_cpu_usage input s e =
      calls_only s _ (handle-Adds setup Handler.get_cpu_usage input s)
  reading-OnlyReads Handler.get_cpu_diff input s e =
      calls_only s _ (handle-Adds setup Handler.get_cpu_diff input s)
  reading-OnlyReads Handler.post_targets input s e = cc
  reading-OnlyReads Handler.post_workloads input s e = cc
  reading-OnlyReads Handler.patch_workload input s e = cc
  reading-OnlyReads Handler.delete_completed input s e = cc
  reading-OnlyReads Handler.delete_pending_last input s e = cc
  reading-OnlyReads (Handler.put_switch k) input s e = cc
  reading-OnlyReads Handler.post_job_scenario input s e = cc

  -- A GET changes nothing of the program's state, and makes no calls but those that read, whatever its
  -- path and its query are, with the CORS flag and without, and also when its handler panics.
  pub serve-OnlyReads :
      (gin : Gin F) (flag : Bool) (request : HttpRequest) (s : System F Q)
      → IsRouter gin
      → request.method ≡ "GET"
      → OnlyReads s (serve setup gin flag request s).1
  serve-OnlyReads gin flag request s laws e = elim (serve-Does setup gin flag request s) [
    | inl same ↦ rw same (unchanged s)
    | inr (h, found, same) ↦
        let (r, at, m, p, is) = laws.found request.method request.path h found in
        rw same (
          reading-OnlyReads h (gin.bind request) s
            (subst (λ g. is_reading g ≡ true) is (get_reads r at (m ∙ e))))
  ]
