-- ===== src/Proxy/Netip.antt =====
-- What internal/proxy/trusted_proxies.go asks of net/netip and of `strings.TrimSpace`.
use dev_gate.Common.{ℕ, ◌≡◌, Bool, true, ◌∷◌, ◌++◌, Option, some, Text, is_empty, false, Lacks}

-- An `A` is a `netip.Addr` and a `P` is a `netip.Prefix`.
pub record Netip (A P : Type 0) : Type 0 where
  pub is_valid : A → Bool
  pub unmap : A → A
  pub zone : A → Text
  pub without_zone : A → A  -- `addr.WithZone("")`
  pub addr_text : A → Text  -- `addr.String()`
  pub prefix_is_valid : P → Bool
  pub prefix_contains : P → A → Bool
  pub parse_addr : Text → Option A
  pub parse_addr_port : Text → Option (A × ℕ)
  pub trim_space : Text → Text

-- The documented behaviour on which the handling of X-Forwarded-For relies.
pub record NetipLaws {A P : Type 0} (net : Netip A P) : Type 0 where
  pub unmap_valid : (a : A) → net.is_valid (net.unmap a) ≡ net.is_valid a
  pub unmap_zone : (a : A) → is_empty (net.zone a) ≡ true → is_empty (net.zone (net.unmap a)) ≡ true
  pub without_zone_valid : (a : A) → net.is_valid (net.without_zone a) ≡ net.is_valid a
  pub without_zone_zone : (a : A) → is_empty (net.zone (net.without_zone a)) ≡ true
  pub parsed_valid : (t : Text) (a : A) → net.parse_addr t ≡ some a → net.is_valid a ≡ true
  pub parsed_port_valid :
      (t : Text) (a : A) (port : ℕ) → net.parse_addr_port t ≡ some (a, port) → net.is_valid a ≡ true
  pub addr_text_some : (a : A) → net.is_valid a ≡ true → is_empty (net.addr_text a) ≡ false

-- The documented behaviour by which a header that was written is read back.
pub record NetipTextLaws {A P : Type 0} (net : Netip A P) : Type 0 where
  pub unmap_unmap : (a : A) → net.unmap (net.unmap a) ≡ net.unmap a
  pub parse_text :
      (a : A)
      → net.is_valid a ≡ true
      → is_empty (net.zone a) ≡ true
      → net.parse_addr (net.addr_text a) ≡ some a
  pub lacks_comma :
      (a : A) → net.is_valid a ≡ true → is_empty (net.zone a) ≡ true → Lacks b',' (net.addr_text a)
  pub trim_text :
      (a : A)
      → net.is_valid a ≡ true
      → is_empty (net.zone a) ≡ true
      → net.trim_space (net.addr_text a) ≡ net.addr_text a
  pub trim_left : (t : Text) → net.trim_space (b' ' ∷ t) ≡ net.trim_space t
  -- An address without a zone neither begins nor ends with a space.
  pub trim_between :
      (a b : A) (t : Text)
      → net.is_valid a ≡ true
      → net.is_valid b ≡ true
      → is_empty (net.zone a) ≡ true
      → is_empty (net.zone b) ≡ true
      → net.trim_space (net.addr_text a ++ (t ++ net.addr_text b))
        ≡ net.addr_text a ++ (t ++ net.addr_text b)
