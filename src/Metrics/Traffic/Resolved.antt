-- ===== src/Metrics/Traffic/Resolved.antt =====
-- What the gauge of internal/metrics/dns_discovery.go shows of the membership that the watcher of
-- internal/discovery/dns_watcher.go publishes.
use text.Mathlib.TextPositions.{eq_refl}
use dev_gate.Common.{
  ℕ, ◌≤◌, ◌≡◌, refl, sym, ap, ◌∙◌, inl, inr, List, [], ◌∷◌, ◌++◌, none, some, String, arith, length,
  All, Option-cases, Bool-cases,
}
use dev_gate.Discovery.Watcher.{Lookup, Refreshed, run}
use dev_gate.Discovery.Published.{last_published, report, reports, run_published}
use dev_gate.Upstream.EndpointMembership
use dev_gate.Upstream.Picker.{ReplaceablePicker}
use dev_gate.Upstream.EndpointCoordinator.{EndpointCoordinator, apply}
use dev_gate.Upstream.EndpointCoordinator.Reading.{ActiveInv}
use dev_gate.Metrics.Prometheus.{Vectors, labels_eq, exact}
use dev_gate.Metrics.Traffic.{DnsDiscovery, dns_for_route, record_refresh, record_refreshes}

-- No answer has more endpoints than a `float64` is exact for.
abbrev pub Counted : {U : Type 0} → Lookup U → Type 0
Counted l = elim l.answer as (λ _. Type 0) [ none ↦ 0 ≤ exact | some us ↦ length us ≤ exact ]

module _ {V : Type 0} (vs : Vectors V) (route : String) where
  record_refreshes-++ :
      (m : DnsDiscovery V) (rs ss : List Refreshed)
      → record_refreshes vs m route (rs ++ ss)
        ≡ record_refreshes vs (record_refreshes vs m route rs) route ss
  unfolding record_refreshes
  record_refreshes-++ m [] ss = refl
  record_refreshes-++ m (r ∷ rs) ss = record_refreshes-++ (record_refresh vs m route r) rs ss

  abbrev pub resolved : DnsDiscovery V → ℕ
  resolved m = vs.value m.resolved_endpoints (route ∷ [])

  resolved-report :
      {U : Type 0} (m : DnsDiscovery V) (us : List U) (l : Lookup U)
      → Counted l
      → resolved m ≡ length us
      → resolved (record_refreshes vs m route (report l)) ≡ length (last_published us (l ∷ []))
  unfolding record_refreshes record_refresh labels_eq
  resolved-report m us l small e = elim (Bool-cases l.done) [
    | inl d ↦ ground (arith, d, e)
    | inr d ↦ elim (Option-cases l.answer) [
      | inl n ↦ ground (arith, d, n, e)
      | inr (ws, n) ↦ ground (
        arith,
        d,
        n,
        e,
        eq_refl route,
        vs.value-set m.resolved_endpoints (route ∷ []) (route ∷ []) (length ws) (rw n at small),
      )
    ]
  ]

  last_published-step :
      {U : Type 0} (us : List U) (l : Lookup U) (ls : List (Lookup U))
      → last_published (last_published us (l ∷ [])) ls ≡ last_published us (l ∷ ls)
  last_published-step us l ls = ground arith

  resolved-reports :
      {U : Type 0} (m : DnsDiscovery V) (us : List U) (ls : List (Lookup U))
      → All Counted ls
      → resolved m ≡ length us
      → resolved (record_refreshes vs m route (reports ls)) ≡ length (last_published us ls)
  unfolding record_refreshes
  resolved-reports m us [] small e = e
  resolved-reports m us (l ∷ ls) small e =
      ap resolved (record_refreshes-++ m (report l) (reports ls))
      ∙ (resolved-reports (record_refreshes vs m route (report l)) (last_published us (l ∷ [])) ls
            small.1 (resolved-report m us l small.0 e)
          ∙ ap length (last_published-step us l ls))

  -- Through any refreshes of the watcher over a coordinator without members, whose active tracker,
  -- where there is one, keeps its invariant, nothing panics, and the gauge of resolved endpoints is
  -- the number of the members that are then published, as long as no answer has more endpoints than
  -- a `float64` is exact for.
  pub gauge_shows_members :
      {Url R P : Type 0} (url_string : Url → String) (pickers : ReplaceablePicker Url R P)
      (m : DnsDiscovery V) (c : EndpointCoordinator Url P) (ls : List (Lookup Url))
      → ActiveInv url_string c.active_tracker
      → EndpointMembership.healthy_endpoints c.membership ≡ []
      → All Counted ls
      → (c' : EndpointCoordinator Url P) × (rs : List Refreshed) × (run
            (apply url_string pickers)
            c
            ls
          ≡ some (c', rs))
        × (resolved (record_refreshes vs (dns_for_route vs m route) route rs)
            ≡ length (EndpointMembership.healthy_endpoints c'.membership))
  unfolding dns_for_route labels_eq
  gauge_shows_members url_string pickers m c ls inv empty small =
      let (c', r, members, inv') = run_published url_string pickers c ls inv in
      (
        c',
        reports ls,
        r,
        resolved-reports (dns_for_route vs m route) [] ls small (
              ground (
                arith,
                eq_refl route,
                vs.value-set m.resolved_endpoints (route ∷ []) (route ∷ []) 0,
              ))
            ∙ (ap (λ us. length (last_published us ls)) (sym empty) ∙ sym (ap length members)),
      )
