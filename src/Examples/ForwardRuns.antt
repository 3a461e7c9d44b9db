-- ===== src/Examples/ForwardRuns.antt =====
-- internal/proxy/trusted_proxies.go on addresses that are numbers, written as one byte.
use dev_gate.Common.{
  ℕ, ◌+◌, ◌-◌, ◌≤◌, ◌<◌, ◌≡◌, refl, true, false, ◌&&◌, List, [], ◌∷◌, ◌++◌, Option, none, some,
  arith, if◌then◌else◌, leb, ◌==◌, length, drop, map, Text, codes, join, split,
}
use dev_gate.Proxy.Netip.{Netip, NetipLaws, NetipTextLaws}
use dev_gate.Proxy.TrustedProxies.{
  max_forwarded_for_hops, any_contains, is_trusted_proxy, parse_remote_ip, parse_parts,
  parse_values, parse_x_forwarded_for, scan_back, sanitize_x_forwarded_for, forwarded_for,
  format_each, format_x_forwarded_for, set_x_forwarded_for,
}
use dev_gate.Proxy.TrustedProxies.Sanitize.{IsCut, sanitize_lem}
use dev_gate.Proxy.TrustedProxies.Header.{written, set_x_forwarded_for_lem}
use dev_gate.Proxy.TrustedProxies.RoundTrip.{parse-format}

-- The address n is written as the byte n + 100.
unfoldable pub parse_byte : Text → Option ℕ
parse_byte (c ∷ []) = if leb 100 c then some (c - 100) else none
parse_byte _ = none

unfoldable pub trim_left : Text → Text
trim_left [] = []
trim_left (c ∷ t) = let rest = trim_left t in if c == b' ' then rest else c ∷ t

-- The prefix p holds the addresses up to p.
abbrev pub bytes : Netip ℕ ℕ
bytes = record {
  is_valid = λ a. true;
  unmap = λ a. a;
  zone = λ a. [];
  without_zone = λ a. a;
  addr_text = λ a. (a + 100) ∷ [];
  prefix_is_valid = λ p. true;
  prefix_contains = λ p a. leb a p;
  parse_addr = parse_byte;
  parse_addr_port = λ t. elim (parse_byte t) [ none ↦ none | some a ↦ some (a, 443) ];
  trim_space = trim_left;
}

bytes_laws : NetipLaws bytes
bytes_laws = record {
  unmap_valid = λ a. refl;
  unmap_zone = λ a e. refl;
  without_zone_valid = λ a. refl;
  without_zone_zone = λ a. refl;
  parsed_valid = λ t a e. refl;
  parsed_port_valid = λ t a port e. refl;
  addr_text_some = λ a e. refl;
}

parsed_byte : (a : ℕ) → parse_byte ((a + 100) ∷ []) ≡ some a
unfolding parse_byte
parsed_byte a = ground arith

kept_byte : (a : ℕ) (t : Text) → trim_left ((a + 100) ∷ t) ≡ (a + 100) ∷ t
unfolding trim_left
kept_byte a t = ground arith

no_comma : (a : ℕ) → ((a + 100) == b',') ≡ false
no_comma a = ground arith

bytes_texts : NetipTextLaws bytes
unfolding trim_left
bytes_texts = record {
  unmap_unmap = λ a. refl;
  parse_text = λ a v z. parsed_byte a;
  lacks_comma = λ a v z. (no_comma a, tt);
  trim_text = λ a v z. kept_byte a [];
  trim_left = λ t. refl;
  trim_between = λ a b t v w y z. kept_byte a (t ++ (b + 100) ∷ []);
}

-- A spoofed hop, the client, and a trusted proxy.
abbrev hops : List ℕ
hops = 90 ∷ 80 ∷ 3 ∷ []

sanitize_lem_example :
    (cut : Option ℕ) × IsCut bytes (5 ∷ []) hops cut
    × (sanitize_x_forwarded_for bytes (5 ∷ []) 4 hops ≡ (
        if is_trusted_proxy bytes (5 ∷ []) 4 && leb 3 max_forwarded_for_hops
        then (elim cut [ none ↦ 4 ∷ [] | some start ↦ map (λ a. a) (drop start hops) ++ 4 ∷ [] ])
        else 4 ∷ []))
sanitize_lem_example = sanitize_lem bytes (5 ∷ []) 4 hops refl

spoof_dropped : sanitize_x_forwarded_for bytes (5 ∷ []) 4 hops ≡ 80 ∷ 3 ∷ 4 ∷ []
unfolding sanitize_x_forwarded_for is_trusted_proxy any_contains scan_back
spoof_dropped = refl

read_remote : parse_remote_ip bytes (104 ∷ []) ≡ some 4
unfolding parse_remote_ip parse_byte
read_remote = refl

-- The header is one value with two hops.
abbrev received : List Text
received = (180 ∷ b',' ∷ b' ' ∷ 103 ∷ []) ∷ []

set_x_forwarded_for_lem_example :
    let as_ = sanitize_x_forwarded_for bytes (5 ∷ []) 4 (forwarded_for bytes (5 ∷ []) 4 received) in
    (set_x_forwarded_for bytes (5 ∷ []) (104 ∷ []) received
      ≡ some (join (codes ", ") (map (written bytes) as_)))
    × (0 < length as_)
    × (length as_ ≤ max_forwarded_for_hops + 1)
set_x_forwarded_for_lem_example =
    set_x_forwarded_for_lem bytes bytes_laws (5 ∷ []) (104 ∷ []) received 4 read_remote

header_sent :
    set_x_forwarded_for bytes (5 ∷ []) (104 ∷ []) received
    ≡ some (180 ∷ b',' ∷ b' ' ∷ 103 ∷ b',' ∷ b' ' ∷ 104 ∷ [])
unfolding set_x_forwarded_for parse_remote_ip parse_byte forwarded_for parse_x_forwarded_for
    parse_values parse_parts sanitize_x_forwarded_for is_trusted_proxy any_contains scan_back
    format_x_forwarded_for format_each join split trim_left
header_sent = refl

parse-format_example :
    (s : Text) × (format_x_forwarded_for bytes (80 ∷ 3 ∷ []) ≡ some s)
    × (parse_x_forwarded_for bytes (s ∷ []) ≡ some (map (λ a. a) (80 ∷ 3 ∷ [])))
parse-format_example =
    parse-format bytes bytes_laws bytes_texts 80 (3 ∷ [])
      (record { valid = refl; zoneless = refl }, (record { valid = refl; zoneless = refl }, tt))
      (omega arith)
