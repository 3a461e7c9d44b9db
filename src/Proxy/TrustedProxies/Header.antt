-- ===== src/Proxy/TrustedProxies/Header.antt =====
-- What setXForwardedFor of internal/proxy/trusted_proxies.go sends.
use mathlib.Core.Option.{some-injective}
use dev_gate.Common.{
  ℕ, zero, suc, ◌+◌, ◌≤◌, ◌<◌, ◌≡◌, refl, ◌∙◌, subst, true, false, not, ◌||◌, inl, inr, List, [],
  ◌∷◌, ◌++◌, some, arith, ltb, leb, length, length-append, drop, map, All, Bool-cases, Option-cases,
  Text, codes, is_empty, split, join,
}
use dev_gate.Proxy.Netip.{Netip, NetipLaws}
use dev_gate.Proxy.TrustedProxies.{
  max_forwarded_for_hops, is_trusted_proxy, scan_back, sanitize_x_forwarded_for, parse_remote_ip,
  parse_parts, parse_values, parse_x_forwarded_for, format_each, format_x_forwarded_for,
  forwarded_for, set_x_forwarded_for,
}

is_empty-append : (s t : Text) → is_empty s ≡ false → is_empty (s ++ t) ≡ false
is_empty-append [] t e = absurd (cc)
is_empty-append (b ∷ s) t e = refl

module _ {A P : Type 0} (net : Netip A P) where
  -- An address that can be written into the header.
  pub record Writable (a : A) : Type 0 where
    pub valid : net.is_valid a ≡ true
    pub zoneless : is_empty (net.zone a) ≡ true

  -- The address as it is written.
  abbrev pub written : A → Text
  written a = net.addr_text (net.unmap a)

  pub format_each_lem :
      (as_ : List A) → All Writable as_ → format_each net as_ ≡ some (map written as_)
  unfolding format_each
  format_each_lem [] h = refl
  format_each_lem (a ∷ as_) (w, h) = ground (arith, format_each_lem as_ h)

  pub format_x_forwarded_for_lem :
      (as_ : List A)
      → All Writable as_
      → length as_ ≤ max_forwarded_for_hops + 1
      → format_x_forwarded_for net as_ ≡ some (join (codes ", ") (map written as_))
  unfolding format_x_forwarded_for join
  format_x_forwarded_for_lem [] h le = refl
  format_x_forwarded_for_lem (a ∷ as_) h le = ground (arith, le, format_each_lem (a ∷ as_) h)

  All-drop : (n : ℕ) (as_ : List A) → All Writable as_ → All Writable (drop n as_)
  All-drop zero as_ h = h
  All-drop (suc n) [] h = tt
  All-drop (suc n) (a ∷ as_) h = All-drop n as_ h.1

  All-snoc : (as_ : List A) (a : A) → All Writable as_ → Writable a → All Writable (as_ ++ a ∷ [])
  All-snoc [] a h w = (w, tt)
  All-snoc (b ∷ as_) a h w = (h.0, All-snoc as_ a h.1 w)

  length-drop-le : (n : ℕ) (as_ : List A) → length (drop n as_) ≤ length as_
  length-drop-le zero as_ = omega arith
  length-drop-le (suc n) [] = omega arith
  length-drop-le (suc n) (a ∷ as_) = omega (arith, length-drop-le n as_)

  length-map : (as_ : List A) → length (map net.unmap as_) ≡ length as_
  length-map [] = refl
  length-map (a ∷ as_) = omega (arith, length-map as_)

  module _ (laws : NetipLaws net) where
    pub unmap-Writable : (a : A) → Writable a → Writable (net.unmap a)
    unmap-Writable a w = record {
      valid = laws.unmap_valid a ∙ w.valid;
      zoneless = laws.unmap_zone a w.zoneless;
    }

    All-map : (as_ : List A) → All Writable as_ → All Writable (map net.unmap as_)
    All-map [] h = tt
    All-map (a ∷ as_) h = (unmap-Writable a h.0, All-map as_ h.1)

    parse_parts-Writable :
        (done : List A) (parts : List Text) (as_ : List A)
        → All Writable done
        → parse_parts net done parts ≡ some as_
        → All Writable as_
    unfolding parse_parts
    parse_parts-Writable done [] as_ h e = subst (All Writable) (some-injective done as_ e) h
    parse_parts-Writable done (part ∷ parts) as_ h e =
        elim (Bool-cases (leb max_forwarded_for_hops (length done))) [
          | inl full ↦ absurd (ground (arith, e, full))
          | inr room ↦ elim (Option-cases (net.parse_addr (net.trim_space part))) [
            | inl bad ↦ absurd (ground (arith, e, room, bad))
            | inr (a, good) ↦ elim (Bool-cases (is_empty (net.zone a))) [
              | inr zoned ↦ absurd (ground (arith, e, room, good, zoned))
              | inl zoneless ↦
                  parse_parts-Writable (done ++ net.unmap a ∷ []) parts as_
                    (All-snoc done (net.unmap a) h (
                      unmap-Writable a (record {
                        valid = laws.parsed_valid (net.trim_space part) a good;
                        zoneless = zoneless;
                      })))
                    (ground (arith, e, room, good, zoneless))
            ]
          ]
        ]

    parse_values-Writable :
        (done : List A) (values : List Text) (as_ : List A)
        → All Writable done
        → parse_values net done values ≡ some as_
        → All Writable as_
    unfolding parse_values
    parse_values-Writable done [] as_ h e = subst (All Writable) (some-injective done as_ e) h
    parse_values-Writable done (v ∷ vs) as_ h e =
        elim (Option-cases (parse_parts net done (split b',' (net.trim_space v)))) [
          | inl bad ↦ absurd (ground (arith, e, bad))
          | inr (bs, good) ↦
              parse_values-Writable bs vs as_
                (parse_parts-Writable done (split b',' (net.trim_space v)) bs h good)
                (ground (arith, e, good))
        ]

    -- What is passed on is at most 33 addresses that can be written, and not none.
    sanitize-Writable :
        (cidrs : List P) (remote : A) (hops : List A)
        → Writable remote
        → All Writable hops
        → let as_ = sanitize_x_forwarded_for net cidrs remote hops in
          All Writable as_ × (length as_ ≤ max_forwarded_for_hops + 1) × (0 < length as_)
    unfolding sanitize_x_forwarded_for
    sanitize-Writable cidrs remote hops w h =
        let alone = net.unmap remote ∷ [] in
        let good = unmap-Writable remote w in
        elim (Bool-cases
          (not (is_trusted_proxy net cidrs remote) || ltb max_forwarded_for_hops (length hops))) [
            | inl apart ↦
                rw (w.valid, apart, sanitize_x_forwarded_for) ((good, tt), omega arith, omega arith)
            | inr near ↦
                elim (Option-cases (scan_back net cidrs hops (length hops) (length hops))) [
                  | inl bad ↦
                      rw (w.valid, near, bad, sanitize_x_forwarded_for)
                        ((good, tt), omega arith, omega arith)
                  | inr (start, e) ↦
                      let kept = map net.unmap (drop start hops) in
                      let n = length-append kept alone in
                      let few : length hops ≤ 32 = ground (arith, near) in
                      rw (w.valid, near, e, sanitize_x_forwarded_for)
                        (
                          All-snoc kept (net.unmap remote)
                              (All-map (drop start hops) (All-drop start hops h)) good,
                          omega (
                            arith,
                            n,
                            few,
                            length-map (drop start hops),
                            length-drop-le start hops,
                          ),
                          omega (arith, n),
                        )
                ]
          ]

    remote-Writable :
        (remote_addr : Text) (remote : A)
        → parse_remote_ip net remote_addr ≡ some remote
        → Writable remote
    unfolding parse_remote_ip
    remote-Writable remote_addr remote e = elim (Option-cases (net.parse_addr_port remote_addr)) [
      | inl bad ↦ absurd (ground (arith, e, bad))
      | inr ((a, port), good) ↦
          let plain : net.without_zone a ≡ remote = ground (arith, e, good) in
          subst Writable plain (record {
            valid = laws.without_zone_valid a ∙ laws.parsed_port_valid remote_addr a port good;
            zoneless = laws.without_zone_zone a;
          })
    ]

    forwarded_for-Writable :
        (cidrs : List P) (remote : A) (values : List Text)
        → All Writable (forwarded_for net cidrs remote values)
    unfolding forwarded_for parse_x_forwarded_for
    forwarded_for-Writable cidrs remote values =
        elim (Bool-cases (is_trusted_proxy net cidrs remote)) [
          | inr foreign ↦ rw (foreign, forwarded_for) tt
          | inl mine ↦ elim (Option-cases (parse_values net [] values)) [
            | inl bad ↦ rw (mine, bad, forwarded_for, parse_x_forwarded_for) tt
            | inr (as_, good) ↦
                rw (mine, good, forwarded_for, parse_x_forwarded_for)
                  (parse_values-Writable [] values as_ tt good)
          ]
        ]

    joined_some :
        (as_ : List A)
        → All Writable as_
        → 0 < length as_
        → is_empty (join (codes ", ") (map written as_)) ≡ false
    unfolding join
    joined_some [] h lt = absurd (omega (arith, lt))
    joined_some (a ∷ []) h lt = laws.addr_text_some (net.unmap a) (unmap-Writable a h.0).valid
    joined_some (a ∷ b ∷ as_) h lt =
        is_empty-append (written a) (codes ", " ++ join (codes ", ") (map written (b ∷ as_)))
          (laws.addr_text_some (net.unmap a) (unmap-Writable a h.0).valid)

    -- When the remote address of a request is read, the header is always sent. It is the addresses
    -- of sanitizeXForwardedFor, of which there are between 1 and 33, in order and after ", ".
    pub set_x_forwarded_for_lem :
        (cidrs : List P) (remote_addr : Text) (values : List Text) (remote : A)
        → parse_remote_ip net remote_addr ≡ some remote
        → let as_ =
            sanitize_x_forwarded_for net cidrs remote (forwarded_for net cidrs remote values) in
          (set_x_forwarded_for net cidrs remote_addr values
            ≡ some (join (codes ", ") (map written as_)))
          × (0 < length as_)
          × (length as_ ≤ max_forwarded_for_hops + 1)
    unfolding set_x_forwarded_for
    set_x_forwarded_for_lem cidrs remote_addr values remote e =
        let as_ =
          sanitize_x_forwarded_for net cidrs remote (forwarded_for net cidrs remote values) in
        let (h, le, lt) =
          sanitize-Writable cidrs remote (forwarded_for net cidrs remote values)
            (remote-Writable remote_addr remote e) (forwarded_for-Writable cidrs remote values) in
        (
          rw (e, format_x_forwarded_for_lem as_ h le, joined_some as_ h lt, set_x_forwarded_for)
              refl,
          lt,
          le,
        )
