-- ===== src/Command/Runtime.antt =====
-- The loop of routeRuntimeFromRoutes of cmd/devgate/handlers.go over all routes, with the background
-- runners of startBackgroundRunners, on the routes of a router.
use mathlib.Core.List.{Memᴰ}
use mathlib.Core.Option.{some-injective}
use dev_gate.Common.{
  ℕ, ◌≡◌, refl, inl, inr, true, false, List, [], ◌∷◌, ◌++◌, Option, none, some, String, arith,
  if◌then◌else◌, Text, codes, text_eq, text_eq_iff, ℤ, pos, lez, ltz, Result, ok, ◌>>=◌, Bool-cases,
  All, is_some, Option-cases, has_prefix, subst, sym, ◌∙◌,
}
use dev_gate.Router.Std.{Std, Url}
use dev_gate.Router.Route.{Route}
use dev_gate.Router.Matching.{Request, match_route}
use dev_gate.Router.Selection.{match_route-Selected}
use dev_gate.Router.Construction as Construction
use dev_gate.Upstream.LeastRequests.{Endpoint}
use dev_gate.Upstream.Picker.{ReplaceablePicker}
use dev_gate.Upstream.HealthChecker.{HealthChecker}
use dev_gate.Discovery.Watcher.{DnsWatcher}
use dev_gate.Command.Picking.{Picker}
use dev_gate.Command.Assembly.{
  AssemblyError, Assembled, proxied, direct, redirecting, Proxied, assemble,
}
use dev_gate.Command.Accepted.{IsHandled, Handles, new-assemble}

-- What runs in the background; the observer of the passive tracker is run where there is one.
pub data Runner : Type 0 where
  checks_health : HealthChecker → Runner
  observes_ejections : Runner
  watches_dns : DnsWatcher → Runner

-- The runners that a route appends, in order.
unfoldable pub runners_of : {S : Type 0} → Proxied S → List Runner
runners_of p =
    elim p.checker [ none ↦ [] | some c ↦ checks_health c ∷ [] ]
    ++ (elim p.shared.passive_tracker [ none ↦ [] | some t ↦ observes_ejections ∷ [] ]
        ++ elim p.watcher [ none ↦ [] | some w ↦ watches_dns w ∷ [] ])

unfoldable pub background_runners : {S : Type 0} → List (Text × Assembled S) → List Runner
unfolding runners_of
background_runners [] = []
background_runners ((name, a) ∷ rest) = elim a.handler [
  | proxied p ↦ runners_of p ++ background_runners rest
  | direct d ↦ background_runners rest
  | redirecting d ↦ background_runners rest
]

-- `runtime.handlers[name]`; the names of a router's routes are distinct.
unfoldable pub handler_of : {S : Type 0} → Text → List (Text × Assembled S) → Option (Assembled S)
unfolding text_eq
handler_of name [] = none
handler_of name ((n, a) ∷ rest) = if text_eq n name then some a else handler_of name rest

-- A route that the assembly does not refuse.
abbrev pub NotGrpc : Route → Type 0
NotGrpc r = text_eq r.protocol (codes "grpc") ≡ false

module _ {R S : Type 0} (url_string : Url → String) (source : S) (initial : ℕ → Endpoint Url)
    (pickers : ReplaceablePicker Url R (Picker S)) (now later : ℕ) where
  unfoldable pub assemble_routes :
      Std → ℤ → ℤ → List Route → Result AssemblyError (List (Text × Assembled S))
  unfolding assemble
  assemble_routes std failure_threshold open_timeout [] = ok []
  assemble_routes std failure_threshold open_timeout (r ∷ rs) = do
    a ← assemble url_string source initial pickers now later std failure_threshold open_timeout r
    rest ← assemble_routes std failure_threshold open_timeout rs
    ok ((r.name, a) ∷ rest)

  module _ (std : Std) (failure_threshold open_timeout : ℤ) where
    route_assembled :
        (r : Route)
        → IsHandled
            (λ (a : Assembled S). Handles url_string pickers now r a.handler)
            r
            (assemble url_string source initial pickers now later std failure_threshold open_timeout
              r)
        → NotGrpc r
        → (a : Assembled S) × (assemble url_string source initial pickers now later std
              failure_threshold open_timeout r
            ≡ ok a)
    route_assembled r h not_grpc = elim h [
      | inl w ↦ (w.0, w.1)
      | inr w ↦ absurd (ground (arith, w.1, not_grpc))
    ]

    every_route_assembled :
        (rs : List Route)
        → All NotGrpc rs
        → ((r : Route)
            → Memᴰ r rs
            → IsHandled
                (λ (a : Assembled S). Handles url_string pickers now r a.handler)
                r
                (assemble url_string source initial pickers now later std failure_threshold
                  open_timeout r))
        → (rt : List (Text × Assembled S)) × (assemble_routes std failure_threshold open_timeout rs
            ≡ ok rt)
          × ((r : Route) → Memᴰ r rs → is_some (handler_of r.name rt) ≡ true)
    unfolding assemble_routes handler_of
    every_route_assembled [] n h = ([], refl, λ r i. elim i [ ])
    every_route_assembled (q ∷ rs) n h =
        let (a, e) = route_assembled q (h q (Memᴰ.head refl)) n.0 in
        let (rt, f, found) = every_route_assembled rs n.1 (λ r i. h r (Memᴰ.tail i)) in
        (
          (q.name, a) ∷ rt,
          rw (e, f, assemble_routes) refl,
          λ r i. elim i [
            | Memᴰ.head same ↦ ground (arith, same, text_eq_iff q.name r.name)
            | Memᴰ.tail j ↦ ground (arith, found r j)
          ],
        )

present_of_match :
    (std : Std) (rs : List Route) (q : Request) (r : Route)
    → match_route std rs q ≡ some r
    → Memᴰ r rs
unfolding match_route
present_of_match std rs q r e = elim (Bool-cases (has_prefix q.path (codes "/"))) [
  | inr unrooted ↦ absurd (ground (arith, e, unrooted))
  | inl rooted ↦ elim (match_route-Selected std rs q rooted) [
    | inl n ↦ absurd (ground (arith, e, n.0))
    | inr (x, f, s) ↦ subst (λ y. Memᴰ y rs) (some-injective x r (sym f ∙ e)) s.present
  ]
]

-- With settings that the circuit breaker takes, the runtime of a router that New accepts, of which no
-- route is one for gRPC, is assembled; and whatever route the router matches with a request, the
-- runtime has a handler of its name, so that the gateway never misses one.
pub matched_handled :
    {R S : Type 0} (std : Std) (url_string : Url → String) (source : S) (initial : ℕ → Endpoint Url)
    (pickers : ReplaceablePicker Url R (Picker S)) (now later : ℕ)
    (failure_threshold open_timeout : ℤ) (routes accepted : List Route)
    → ltz failure_threshold (pos 1) ≡ false
    → lez open_timeout (pos 0) ≡ false
    → Construction.new std routes ≡ ok accepted
    → All NotGrpc accepted
    → (rt : List (Text × Assembled S)) × (assemble_routes url_string source initial pickers now
          later std failure_threshold open_timeout accepted
        ≡ ok rt)
      × ((q : Request) (r : Route)
          → match_route std accepted q ≡ some r
          → (a : Assembled S) × (handler_of r.name rt ≡ some a))
matched_handled std url_string source initial pickers now later ft_ ot_ routes accepted ft ot e n =
    let (rt, f, found) =
      every_route_assembled url_string source initial pickers now later std ft_ ot_ accepted n
        (λ r i.
          new-assemble std url_string source initial pickers now later ft_ ot_ routes accepted r ft
            ot e i) in
    (
      rt,
      f,
      λ q r m. elim (Option-cases (handler_of r.name rt)) [
        | inl missing ↦
            absurd (ground (arith, missing, found r (present_of_match std accepted q r m)))
        | inr handled ↦ handled
      ],
    )
