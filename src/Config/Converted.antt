-- ===== src/Config/Converted.antt =====
-- What the conversion of cmd/devgate/routes.go gives to internal/router.
use dev_gate.Common.{
  ◌≡◌, refl, ◌⊎◌, inl, inr, Bool, true, false, not, List, [], ◌∷◌, Option, none, some, arith,
  is_empty, length, Text, Result, err, ok, Option-cases, Result-cases, ok_injective, Bool-cases,
  subst, is_some, ◌>>=◌,
}
use dev_gate.Router.Std.{Std, Url}
use dev_gate.Router.Route.{DnsDiscoveryPolicy, LoadBalancingPolicy, Route, Upstream}
use dev_gate.Router.Validation.Upstreams.{is_supported}
use dev_gate.Config.Route.{RouteConfig, UpstreamConfig, UpstreamDiscoveryConfig}
use dev_gate.Config.Conversion.{
  ConversionError, discovery_from_config, load_balancing_from_config, pool_from_config,
  route_from_config, routes_from_config, static_endpoints, dns_source, url_from_config,
  upstream_from_config,
}

-- An upstream whose policy is known, and that has one endpoint if it is discovered by DNS.
abbrev pub IsPool : Upstream → Type 0
IsPool u =
    (is_supported u.load_balancing ≡ true) × ((u.dns_discovery ≡ none) ⊎ (length u.endpoints ≡ 1))

abbrev pub IsPools : Option Upstream → Type 0
IsPools none = true ≡ true
IsPools (some u) = IsPool u

-- How a route's upstream is configured agrees with whether it has one.
abbrev pub is_configured : RouteConfig → Bool
is_configured c = elim c.upstream [ none ↦ not (is_empty c.upstream_url) | some p ↦ true ]

-- Routes for configured routes, one by one: of their names, with an upstream just where one is
-- configured, and with what IsPool says of it.
abbrev pub AreConverted : List RouteConfig → List Route → Type 0
AreConverted [] [] = true ≡ true
AreConverted [] (r ∷ rs) = true ≡ false
AreConverted (c ∷ cs) [] = true ≡ false
AreConverted (c ∷ cs) (r ∷ rs) =
    (r.name ≡ c.name)
    × (is_some r.upstream ≡ is_configured c)
    × IsPools r.upstream
    × AreConverted cs rs

load_balancing_from_config-is_supported :
    (name : Text) (p : LoadBalancingPolicy)
    → load_balancing_from_config name ≡ ok p
    → is_supported p ≡ true
unfolding load_balancing_from_config
load_balancing_from_config-is_supported name p e = ground (arith, e)

module _ (std : Std) where
  discovery-one :
      (d : UpstreamDiscoveryConfig) (s : Option DnsDiscoveryPolicy × List Url)
      → discovery_from_config std d ≡ ok s
      → (s.0 ≡ none) ⊎ (length s.1 ≡ 1)
  unfolding discovery_from_config dns_source
  discovery-one d s e = elim (Option-cases d.dns) [
    | inl n ↦ elim (Option-cases d.static) [
      | inl m ↦ absurd (ground (arith, e, n, m))
      | inr (st, m) ↦ elim (Result-cases (static_endpoints std 0 st.endpoints)) [
        | inl (x, f) ↦ absurd (ground (arith, e, n, m, f))
        | inr (us, f) ↦ inl (ground (arith, e, n, m, f))
      ]
    ]
    | inr (dns, n) ↦ elim (Option-cases (std.parse_url dns.url)) [
      | inl f ↦ absurd (ground (arith, e, n, f))
      | inr (u, f) ↦ inr (ground (arith, e, n, f))
    ]
  ]

  pool_from_config-IsPool :
      (c : UpstreamConfig) (u : Upstream) → pool_from_config std c ≡ ok u → IsPool u
  unfolding pool_from_config
  pool_from_config-IsPool c u e = elim (Option-cases c.discovery) [
    | inl n ↦ absurd (ground (arith, e, n))
    | inr (d, n) ↦ elim (Result-cases (load_balancing_from_config c.load_balancing)) [
      | inl (x, f) ↦ absurd (ground (arith, e, n, f))
      | inr (p, f) ↦ elim (Result-cases (discovery_from_config std d)) [
        | inl (x, g) ↦ absurd (ground (arith, e, n, f, g))
        | inr (src, g) ↦ elim (discovery-one d src g) [
          | inl o ↦ (
            ground
                (arith, e, n, f, g, load_balancing_from_config-is_supported c.load_balancing p f),
            inl (ground (arith, e, n, f, g, o)),
          )
          | inr o ↦ (
            ground
                (arith, e, n, f, g, load_balancing_from_config-is_supported c.load_balancing p f),
            inr (ground (arith, e, n, f, g, o)),
          )
        ]
      ]
    ]
  ]

  url-IsPool : (t : Text) (u : Upstream) → url_from_config std t ≡ ok u → IsPool u
  unfolding url_from_config
  url-IsPool t u e = elim (Option-cases (std.parse_url t)) [
    | inl n ↦ absurd (ground (arith, e, n))
    | inr (v, n) ↦ (ground (arith, e, n), inl (ground (arith, e, n)))
  ]

  -- Both ways of an upstream, once it has been read.
  read-IsPools :
      (r : Result ConversionError Upstream) (o : Option Upstream)
      → ((u : Upstream) → r ≡ ok u → IsPool u)
      → (do u ← r; ok (some u)) ≡ ok o
      → (is_some o ≡ true) × IsPools o
  read-IsPools (err x) o h e = absurd (cc)
  read-IsPools (ok u) o h e =
      subst (λ p. (is_some p ≡ true) × IsPools p) (ok_injective e) (refl, h u refl)

  upstream-IsPools :
      (c : RouteConfig) (o : Option Upstream)
      → upstream_from_config std c ≡ ok o
      → (is_some o ≡ is_configured c) × IsPools o
  unfolding upstream_from_config
  upstream-IsPools c o e = elim (Option-cases c.upstream) [
    | inl n ↦ elim (Bool-cases (is_empty c.upstream_url)) [
      | inl f ↦
          let gone : none ≡ o = ground (arith, e, n, f) in
          subst (λ p. (is_some p ≡ is_configured c) × IsPools p) gone (ground (arith, n, f), refl)
      | inr f ↦
          let (s, p) =
            read-IsPools (url_from_config std c.upstream_url) o (url-IsPool c.upstream_url)
              (ground (arith, e, n, f)) in
          (ground (arith, s, n, f), p)
    ]
    | inr (pool, n) ↦ elim (Bool-cases (is_empty c.upstream_url)) [
      | inl f ↦
          let (s, p) =
            read-IsPools (pool_from_config std pool) o (pool_from_config-IsPool pool)
              (ground (arith, e, n, f)) in
          (ground (arith, s, n, f), p)
      | inr f ↦ absurd (ground (arith, e, n, f))
    ]
  ]

  route-IsPools :
      (c : RouteConfig) (r : Route)
      → route_from_config std c ≡ ok r
      → (r.name ≡ c.name) × (is_some r.upstream ≡ is_configured c) × IsPools r.upstream
  unfolding route_from_config
  route-IsPools c r e = elim (Result-cases (upstream_from_config std c)) [
    | inl (x, f) ↦ absurd (ground (arith, e, f))
    | inr (o, f) ↦
        let (s, p) = upstream-IsPools c o f in
        let same : o ≡ r.upstream = ground (arith, e, f) in
        (
          ground (arith, e, f),
          subst (λ x. is_some x ≡ is_configured c) same s,
          subst (λ x. IsPools x) same p,
        )
  ]

  -- The configured routes that are converted give one route each, in order and of the same name. A
  -- route has an upstream just where one is configured. The load-balancing policy of an upstream is
  -- then one that validation supports, and one with DNS discovery has a single endpoint.
  pub routes_from_config_lem :
      (cs : List RouteConfig) (rs : List Route)
      → routes_from_config std cs ≡ ok rs
      → AreConverted cs rs
  unfolding routes_from_config
  routes_from_config_lem [] [] e = refl
  routes_from_config_lem [] (r ∷ rs) e = absurd (ground (arith, e))
  routes_from_config_lem (c ∷ cs) rs e = elim (Result-cases (route_from_config std c)) [
    | inl (x, f) ↦ absurd (ground (arith, e, f))
    | inr (r, f) ↦ elim (Result-cases (routes_from_config std cs)) [
      | inl (x, g) ↦ absurd (ground (arith, e, f, g))
      | inr (rest, g) ↦
          let (name, s, p) = route-IsPools c r f in
          let same : r ∷ rest ≡ rs = ground (arith, e, f, g) in
          subst (λ x. AreConverted (c ∷ cs) x) same (name, s, p, routes_from_config_lem cs rest g)
    ]
  ]
