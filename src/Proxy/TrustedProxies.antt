-- ===== src/Proxy/TrustedProxies.antt =====
-- internal/proxy/trusted_proxies.go. Addresses and prefixes are those of `Netip`; a header is set to
-- a text or, as `none`, deleted.
pub mod Sanitize
pub mod Header
pub mod RoundTrip
use dev_gate.Common.{
  ℕ, zero, suc, ◌+◌, Bool, true, false, not, ◌&&◌, ◌||◌, List, [], ◌∷◌, ◌++◌, Option, none, some,
  if◌then◌else◌, ltb, leb, ◌==◌, Text, codes, is_empty, split, join, length, get_elem?, drop, map,
}
use dev_gate.Proxy.Netip.{Netip}

abbrev pub max_forwarded_for_hops : ℕ
max_forwarded_for_hops = 32

module _ {A P : Type 0} (net : Netip A P) where
  -- The loop of isTrustedProxy.
  unfoldable pub any_contains : List P → A → Bool
  any_contains [] a = false
  any_contains (cidr ∷ cidrs) a =
      net.prefix_is_valid cidr
        && (net.prefix_contains cidr a || net.prefix_contains cidr (net.unmap a))
      || any_contains cidrs a

  unfoldable pub is_trusted_proxy : List P → A → Bool
  is_trusted_proxy cidrs a = net.is_valid a && any_contains cidrs a

  unfoldable pub parse_remote_ip : Text → Option A
  parse_remote_ip remote_addr = elim (net.parse_addr_port remote_addr) [
    | none ↦ none
    | some (a, port) ↦ if port == 0 then none else some (net.without_zone a)
  ]

  -- The inner loop of parseXForwardedFor.
  unfoldable pub parse_parts : List A → List Text → Option (List A)
  parse_parts addresses [] = some addresses
  parse_parts addresses (part ∷ parts) =
      if leb max_forwarded_for_hops (length addresses)
      then none
      else elim (net.parse_addr (net.trim_space part)) [
        | none ↦ none
        | some a ↦
            let rest = parse_parts (addresses ++ net.unmap a ∷ []) parts in
            if is_empty (net.zone a) then rest else none
      ]

  -- The outer loop.
  unfoldable pub parse_values : List A → List Text → Option (List A)
  parse_values addresses [] = some addresses
  parse_values addresses (value ∷ values) =
      elim (parse_parts addresses (split b',' (net.trim_space value))) [
        | none ↦ none
        | some addresses' ↦ parse_values addresses' values
      ]

  unfoldable pub parse_x_forwarded_for : List Text → Option (List A)
  parse_x_forwarded_for values = parse_values [] values

  -- The loop of sanitizeXForwardedFor downwards from index `i - 1`: `start`, or `none` where the
  -- fallback is returned.
  unfoldable pub scan_back : List P → List A → ℕ → ℕ → Option ℕ
  scan_back cidrs forwarded zero start = some start
  scan_back cidrs forwarded (suc i) start = elim (get_elem? forwarded i) [
    | none ↦ none
    | some a ↦
        let further = scan_back cidrs forwarded i i in
        if not (net.is_valid a)
        then none
        else if not (is_trusted_proxy cidrs a)
        then some i
        else further
  ]

  unfoldable pub sanitize_x_forwarded_for : List P → A → List A → List A
  sanitize_x_forwarded_for cidrs remote forwarded =
      if not (net.is_valid remote)
      then []
      else if not (is_trusted_proxy cidrs remote) || ltb max_forwarded_for_hops (length forwarded)
      then net.unmap remote ∷ []
      else elim (scan_back cidrs forwarded (length forwarded) (length forwarded)) [
        | none ↦ net.unmap remote ∷ []
        | some start ↦ map net.unmap (drop start forwarded) ++ net.unmap remote ∷ []
      ]

  -- The loop of formatXForwardedFor.
  unfoldable pub format_each : List A → Option (List Text)
  format_each [] = some []
  format_each (a ∷ as_) =
      if not (net.is_valid a)
      then none
      else if not (is_empty (net.zone a))
      then none
      else elim (format_each as_) [
        | none ↦ none
        | some formatted ↦ some (net.addr_text (net.unmap a) ∷ formatted)
      ]

  unfoldable pub format_x_forwarded_for : List A → Option Text
  format_x_forwarded_for [] = some []
  format_x_forwarded_for (a ∷ as_) =
      if ltb (max_forwarded_for_hops + 1) (length (a ∷ as_))
      then none
      else elim (format_each (a ∷ as_)) [
        | none ↦ none
        | some formatted ↦ some (join (codes ", ") formatted)
      ]

  -- `parsedForwardedFor`
  unfoldable pub forwarded_for : List P → A → List Text → List A
  forwarded_for cidrs remote values =
      if is_trusted_proxy cidrs remote
      then elim (parse_x_forwarded_for values) [ none ↦ [] | some parsed ↦ parsed ]
      else []

  -- The header that is sent, from the remote address and the header that was received.
  unfoldable pub set_x_forwarded_for : List P → Text → List Text → Option Text
  set_x_forwarded_for cidrs remote_addr values = elim (parse_remote_ip remote_addr) [
    | none ↦ none
    | some remote ↦
        elim (format_x_forwarded_for
          (sanitize_x_forwarded_for cidrs remote (forwarded_for cidrs remote values))) [
            | none ↦ none
            | some formatted ↦ if is_empty formatted then none else some formatted
          ]
  ]
