-- ===== src/Middlewares.antt =====
-- pkg/middlewares/middlewares.go.
use target_exporter.Prelude.{ℕ, String, Option, none, some, [], Dict, insert, ◌==◌, if◌then◌else◌}

-- The parts of gin's response writer that the program sets: the status of an abort, and the headers.
pub record Writer : Type 0 where
  pub aborted : Option ℕ
  pub headers : Dict String

abbrev pub new_writer : Writer
new_writer = record { aborted = none; headers = [] }

abbrev set_header : String → String → Writer → Writer
set_header name value w = record w { headers = insert name value w.headers }

-- CorsDisabled up to `c.Next()`: what comes next is done if the writer is not aborted.
unfoldable pub cors_disabled : String → Writer → Writer
cors_disabled method w =
    let headed =
      set_header "Access-Control-Allow-Methods" "POST, DELETE, OPTIONS, GET, PUT, PATCH" (
        set_header "Access-Control-Allow-Headers"
          "Content-Type, Content-Length, Accept-Encoding, X-CSRF-Token, Authorization, accept, origin, Cache-Control, X-Requested-With"
          (set_header "Access-Control-Allow-Credentials" "true"
            (set_header "Access-Control-Allow-Origin" "*" w))) in
    if method == "OPTIONS" then record headed { aborted = some 204 } else headed
