-- ===== src/Proxy/TrustedProxies/Sanitize.antt =====
-- The walk of sanitizeXForwardedFor over the hops, in internal/proxy/trusted_proxies.go.
use dev_gate.Common.{
  ℕ, zero, suc, ◌≤◌, ◌≡◌, ◌⊎◌, refl, true, false, ◌&&◌, inl, inr, List, [], ◌∷◌, ◌++◌, Option, none,
  some, arith, if◌then◌else◌, leb, length, get_elem?, drop, map, All, drop_at, drop-length,
  get_elem?_of_lt, Bool-cases,
}
use dev_gate.Proxy.Netip.{Netip}
use dev_gate.Proxy.TrustedProxies.{
  max_forwarded_for_hops, is_trusted_proxy, scan_back, sanitize_x_forwarded_for,
}

module _ {A P : Type 0} (net : Netip A P) (cidrs : List P) where
  abbrev pub Trusted : A → Type 0
  Trusted a = is_trusted_proxy net cidrs a ≡ true

  -- Where the hops that are kept begin: at the first, where all are trusted, and so valid; or at a
  -- valid hop that is not trusted, where all behind it are. `none` is that a hop is not valid and
  -- all behind it are trusted.
  unfoldable pub IsCut : List A → Option ℕ → Type 0
  IsCut hops (some start) =
      ((start ≡ 0) × All Trusted hops)
      ⊎ ((a : A) × (get_elem? hops start ≡ some a)
          × (net.is_valid a ≡ true)
          × (is_trusted_proxy net cidrs a ≡ false)
          × All Trusted (drop (suc start) hops))
  IsCut hops none =
      (i : ℕ) × (a : A) × (get_elem? hops i ≡ some a)
      × (net.is_valid a ≡ false)
      × All Trusted (drop (suc i) hops)

  scan_back-IsCut :
      (hops : List A) (i : ℕ)
      → i ≤ length hops
      → All Trusted (drop i hops)
      → IsCut hops (scan_back net cidrs hops i i)
  unfolding scan_back IsCut
  scan_back-IsCut hops zero le trusted = inl (refl, trusted)
  scan_back-IsCut hops (suc i) le trusted =
      let (a, at) = get_elem?_of_lt i hops (omega (arith, le)) in
      elim (Bool-cases (net.is_valid a)) [
        | inr invalid ↦ rw (at, invalid, scan_back) (i, a, at, invalid, trusted)
        | inl valid ↦ elim (Bool-cases (is_trusted_proxy net cidrs a)) [
          | inr foreign ↦ rw (at, valid, foreign, scan_back) (inr (a, at, valid, foreign, trusted))
          | inl mine ↦
              rw (at, valid, mine, scan_back)
                (scan_back-IsCut hops i (omega (arith, le))
                  (rw (drop_at i hops a at) (mine, trusted)))
        ]
      ]

  -- For a valid remote address, the addresses that are passed on end with it. If it is trusted and
  -- there are at most 32 hops, they are before it the hops from the cut on, all with IPv4-mapped
  -- addresses unwrapped; otherwise, or if the walk meets an invalid hop, it stands alone.
  pub sanitize_lem :
      (remote : A) (hops : List A)
      → net.is_valid remote ≡ true
      → (cut : Option ℕ) × IsCut hops cut
        × (sanitize_x_forwarded_for net cidrs remote hops ≡ (
            if is_trusted_proxy net cidrs remote && leb (length hops) max_forwarded_for_hops
            then (elim cut [
              | none ↦ net.unmap remote ∷ []
              | some start ↦ map net.unmap (drop start hops) ++ net.unmap remote ∷ []
            ])
            else net.unmap remote ∷ []))
  unfolding sanitize_x_forwarded_for
  sanitize_lem remote hops valid = (
    scan_back net cidrs hops (length hops) (length hops),
    scan_back-IsCut hops (length hops) (omega arith) (rw (drop-length hops) tt),
    ground arith,
  )
