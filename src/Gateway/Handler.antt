-- ===== src/Gateway/Handler.antt =====
-- internal/gateway/handler.go and recovery.go, with the headers that Write of
-- internal/errorresponse/responder.go sets. The header map is that of the writer, which all share;
-- logging is left out, and the metrics are the route's name and the recorded status.
use dev_gate.Common.{
  ℕ, Bool, true, false, not, List, [], ◌∷◌, Option, none, some, if◌then◌else◌, Text, codes, join,
}
use dev_gate.Router.Std.{Std}
use dev_gate.Router.Route.{Route}
use dev_gate.Router.Matching.{Request, match_route}
use dev_gate.Router.Allowed.{allowed_methods}
use dev_gate.Http.{Headers}
use dev_gate.Gateway.Writer.{Call, ResponseWriter, new_response_writer, handle}

-- `aborted` is a panic with http.ErrAbortHandler.
pub data Ending : Type 0 where
  returned aborted panicked : Ending

-- What a handler writes, what it makes of the header map before its first call, and how it ends.
pub record Handling (H : Type 0) : Type 0 where
  pub calls : List Call
  pub change : H → H
  pub ending : Ending

-- The request as served: the writer at the end, the header map as its first call sends it, the name
-- in the metrics, and whether the connection is aborted.
pub record Served (H : Type 0) : Type 0 where
  pub writer : ResponseWriter
  pub header : H
  pub route_name : Text
  pub abort : Bool

pub record Gateway (H : Type 0) : Type 0 where
  pub routes : List Route
  pub handlers : Text → Option (Handling H)  -- for the request at hand
  pub error_response : ℕ → List Call  -- what the error responder writes for a status
  pub configured : ℕ → Option (List (Text × Text))  -- the headers of its response for a status
  pub http_error : H → H  -- what `http.Error` makes of the header map

module _ {H : Type 0} {lower : Text → Text} (headers : Headers lower H) where
  -- The loop of Responder.Write over the configured headers.
  unfoldable pub set_all : List (Text × Text) → H → H
  set_all [] h = h
  set_all ((name, value) ∷ rest) h = set_all rest (headers.set_header h name value)

  -- What the error responder makes of the header map.
  unfoldable pub error_header : Gateway H → ℕ → H → H
  unfolding set_all
  error_header g status h = elim (g.configured status) [
    | none ↦ g.http_error h
    | some entries ↦ set_all entries h
  ]

  -- recoverPanic: the writer, the header map, and whether it panics again.
  unfoldable pub recover_panic : Gateway H → ResponseWriter → H → Ending → ResponseWriter × H × Bool
  unfolding handle error_header
  recover_panic g w h returned = (w, h, false)
  recover_panic g w h aborted = (w, h, true)
  recover_panic g w h panicked =
      if not w.wrote_header
      then (handle w (g.error_response 500), error_header g 500 h, false)
      else (w, h, true)

module _ {H : Type 0} (std : Std) (sort : List Text → List Text) (headers : Headers std.to_lower H)
    (g : Gateway H) where
  -- The answer without a handler, by the recording writer.
  refused : H → Text → ℕ → Served H
  unfolding error_header
  refused h name status = record {
    writer = handle new_response_writer (g.error_response status);
    header = error_header headers g status h;
    route_name = name;
    abort = false;
  }

  run_handler : H → Text → Handling H → Served H
  unfolding recover_panic
  run_handler h name x =
      let (w, header, abort) =
        recover_panic headers g (handle new_response_writer x.calls) (x.change h) x.ending in
      record { writer = w; header = header; route_name = name; abort = abort }

  -- ServeHTTP, from the header map as it is before.
  unfoldable pub serve_http : Request → H → Served H
  unfolding refused run_handler
  serve_http q h = elim (match_route std g.routes q) [
    | none ↦ elim (allowed_methods std sort g.routes q.host q.path q.headers) [
      | none ↦ refused h (codes "unmatched") 404
      | some methods ↦ elim methods [
        | [] ↦ refused h (codes "unmatched") 404
        | m ∷ ms ↦
            refused (headers.set_header h (codes "Allow") (join (codes ", ") (m ∷ ms)))
              (codes "unmatched") 405
      ]
    ]
    | some route ↦ elim (g.handlers route.name) [
      | none ↦ refused h route.name 500
      | some x ↦ run_handler h route.name x
    ]
  ]
