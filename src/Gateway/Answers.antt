-- ===== src/Gateway/Answers.antt =====
-- What a client of internal/gateway gets.
use dev_gate.Common.{
  ℕ, ◌≡◌, refl, ap, All, text_eq, Bool, true, false, List, [], ◌∷◌, some, if◌then◌else◌, Text,
  codes, join, contains, is_some,
}
use dev_gate.Router.Std.{Std}
use dev_gate.Router.Route.{Route}
use dev_gate.Router.Matching.{Request, match_route}
use dev_gate.Http.{Headers}
use dev_gate.Gateway.Writer.{Call, new_response_writer, handle, handle_lem, sent, any_call}
use dev_gate.Gateway.Handler.{
  Ending, returned, aborted, panicked, Handling, Served, Gateway, error_header, recover_panic,
  serve_http,
}

-- What goes out for a handler: its response, or where it panics before it writes anything, the one
-- for 500.
abbrev pub outcome : {H : Type 0} → (ℕ → List Call) → Handling H → List Call
outcome respond x = elim x.ending [
  | returned ↦ sent x.calls
  | aborted ↦ sent x.calls
  | panicked ↦ if any_call x.calls then sent x.calls else sent (respond 500)
]

abbrev pub cut_off : {H : Type 0} → Handling H → Bool
cut_off x = elim x.ending [ returned ↦ false | aborted ↦ true | panicked ↦ any_call x.calls ]

module _ {H : Type 0} {lower : Text → Text} (headers : Headers lower H) (g : Gateway H) where
  -- The header map with which that goes out.
  abbrev pub outcome_header : H → Handling H → H
  outcome_header h x = elim x.ending [
    | returned ↦ x.change h
    | aborted ↦ x.change h
    | panicked ↦ if any_call x.calls then x.change h else error_header headers g 500 (x.change h)
  ]

  recovered :
      (cs : List Call) (change : H → H) (h : H) (ending : Ending)
      → let (w, header, abort) =
          recover_panic headers g (handle new_response_writer cs) (change h) ending in
        let x : Handling H = record { calls = cs; change = change; ending = ending } in
        (w.below ≡ outcome g.error_response x) × (header ≡ outcome_header h x) × (abort ≡ cut_off x)
  unfolding recover_panic
  recovered cs change h returned = rw (handle_lem cs) (refl, refl, refl)
  recovered cs change h aborted = rw (handle_lem cs) (refl, refl, refl)
  recovered [] change h panicked =
      (ap (λ w. w.below) (handle_lem (g.error_response 500)), refl, refl)
  recovered (c ∷ cs) change h panicked = rw (handle_lem (c ∷ cs)) (refl, refl, refl)

  -- A header that is not the Allow header.
  abbrev pub IsOther : Text × Text → Type 0
  IsOther (name, value) = text_eq (lower name) (lower (codes "Allow")) ≡ false

  -- The response for a status, where one is configured, is without an Allow header.
  abbrev pub SetsNoAllow : ℕ → Type 0
  SetsNoAllow status =
      (entries : List (Text × Text)) → g.configured status ≡ some entries → All IsOther entries

module _ {H : Type 0} (std : Std) (sort : List Text → List Text) (headers : Headers std.to_lower H)
    (g : Gateway H) where
  -- A request for which Match finds a route with a handler is served by that handler. What goes out is
  -- its response; a panic before it has written anything gives the error response for 500, and the
  -- connection is cut off by a panic after that, and by one with http.ErrAbortHandler. The header map
  -- is then what the handler has made of it, on which the error response has set its headers if it
  -- is given.
  pub serve_http_matched :
      (q : Request) (h : H) (route : Route) (x : Handling H)
      → match_route std g.routes q ≡ some route
      → g.handlers route.name ≡ some x
      → let served = serve_http std sort headers g q h in
        (served.route_name ≡ route.name)
        × (served.writer.below ≡ outcome g.error_response x)
        × (served.header ≡ outcome_header headers g h x)
        × (served.abort ≡ cut_off x)
  unfolding serve_http
  serve_http_matched q h route x e f =
      let r = recovered headers g x.calls x.change h x.ending in
      rw (e, f, serve_http) (refl, r.0, r.1, r.2)

  -- 404: with no method is the request matched, and the Allow header stays as it was.
  abbrev pub IsNotFound : Request → H → Served H → Type 0
  IsNotFound q h served =
      (served.writer.below ≡ sent (g.error_response 404))
      × (headers.values served.header (codes "Allow") ≡ headers.values h (codes "Allow"))
      × ((method : Text)
          → is_some (match_route std g.routes (record q { method = method })) ≡ false)

  -- 405: the Allow header joins the methods with which the request is matched.
  abbrev pub IsNotAllowed : Request → Served H → Type 0
  IsNotAllowed q served =
      (methods : List Text) × (served.writer.below ≡ sent (g.error_response 405))
      × (headers.values served.header (codes "Allow") ≡ join (codes ", ") methods ∷ [])
      × (contains methods q.method ≡ false)
      × ((method : Text)
          → contains methods method
            ≡ is_some (match_route std g.routes (record q { method = method })))
