-- ===== src/Proxy/TrustedProxies/RoundTrip.antt =====
-- The header of internal/proxy/trusted_proxies.go that one gateway writes, as another reads it.
use mathlib.Core.List.{append_assoc, append-nil}
use dev_gate.Common.{
  ◌+◌, ◌≤◌, ◌<◌, ◌≡◌, refl, ◌∙◌, sym, ap, List, [], ◌∷◌, ◌++◌, some, arith, length, length-append,
  map, All, Text, Lacks, codes, split, split-join, spaced, join,
}
use dev_gate.Proxy.Netip.{Netip, NetipLaws, NetipTextLaws}
use dev_gate.Proxy.TrustedProxies.{
  max_forwarded_for_hops, parse_parts, parse_values, parse_x_forwarded_for, format_x_forwarded_for,
}
use dev_gate.Proxy.TrustedProxies.Header.{
  Writable, written, unmap-Writable, format_x_forwarded_for_lem,
}

module _ {A P : Type 0} (net : Netip A P) (laws : NetipLaws net) (texts : NetipTextLaws net) where
  -- A part that is an address, with or without a space before it, is read.
  parse_parts_step :
      (done : List A) (part : Text) (parts : List Text) (a : A)
      → Writable net a
      → net.trim_space part ≡ written net a
      → length done < max_forwarded_for_hops
      → parse_parts net done (part ∷ parts) ≡ parse_parts net (done ++ net.unmap a ∷ []) parts
  unfolding parse_parts
  parse_parts_step done part parts a w e lt =
      let v = unmap-Writable net laws a w in
      ground (
        arith,
        ap net.parse_addr e,
        texts.parse_text (net.unmap a) v.valid v.zoneless,
        texts.unmap_unmap a,
        v.zoneless,
      )

  trim_written : (a : A) → Writable net a → net.trim_space (written net a) ≡ written net a
  trim_written a w =
      let v = unmap-Writable net laws a w in texts.trim_text (net.unmap a) v.valid v.zoneless

  trim_spaced : (a : A) → Writable net a → net.trim_space (spaced (written net a)) ≡ written net a
  trim_spaced a w = texts.trim_left (written net a) ∙ trim_written a w

  parse_parts-spaced :
      (done as_ : List A)
      → All (Writable net) as_
      → length done + length as_ ≤ max_forwarded_for_hops
      → parse_parts net done (map spaced (map (written net) as_)) ≡ some (done ++ map net.unmap as_)
  unfolding parse_parts
  parse_parts-spaced done [] h le = ap some (sym (append-nil done))
  parse_parts-spaced done (a ∷ as_) (w, h) le =
      let done' = done ++ net.unmap a ∷ [] in
      parse_parts_step done (spaced (written net a)) (map spaced (map (written net) as_)) a w
        (trim_spaced a w) (omega (arith, le))
      ∙ parse_parts-spaced done' as_ h (omega (arith, le, length-append done (net.unmap a ∷ [])))
      ∙ ap some (append_assoc done (net.unmap a ∷ []) (map net.unmap as_))

  -- A joined list ends with an address.
  last_written :
      (a : A) (as_ : List A)
      → All (Writable net) (a ∷ as_)
      → (t : Text) × (z : A) × Writable net z
        × (join (codes ", ") (map (written net) (a ∷ as_)) ≡ t ++ written net z)
  unfolding join
  last_written a [] (w, h) = ([], a, w, refl)
  last_written a (b ∷ as_) (w, h) =
      let (t, z, v, e) = last_written b as_ h in
      (
        written net a ++ (codes ", " ++ t),
        z,
        v,
        ap (λ s. written net a ++ (codes ", " ++ s)) e
            ∙ sym (append_assoc (written net a) (codes ", " ++ t) (written net z)),
      )

  trim_join :
      (a : A) (as_ : List A)
      → All (Writable net) (a ∷ as_)
      → let s = join (codes ", ") (map (written net) (a ∷ as_)) in net.trim_space s ≡ s
  unfolding join
  trim_join a [] (w, h) = trim_written a w
  trim_join a (b ∷ as_) (w, h) =
      let (t, z, v, e) = last_written b as_ h in
      let first = unmap-Writable net laws a w in
      let last = unmap-Writable net laws z v in
      rw e (
        texts.trim_between (net.unmap a) (net.unmap z) (codes ", " ++ t) first.valid last.valid
          first.zoneless last.zoneless)

  All-Lacks : (as_ : List A) → All (Writable net) as_ → All (Lacks b',') (map (written net) as_)
  All-Lacks [] h = tt
  All-Lacks (a ∷ as_) (w, h) =
      let v = unmap-Writable net laws a w in
      (texts.lacks_comma (net.unmap a) v.valid v.zoneless, All-Lacks as_ h)

  -- Up to 32 addresses that can be written are, but for unwrapped IPv4-mapped addresses, what
  -- parseXForwardedFor reads of the one value that formatXForwardedFor writes of them.
  pub parse-format :
      (a : A) (as_ : List A)
      → All (Writable net) (a ∷ as_)
      → length (a ∷ as_) ≤ max_forwarded_for_hops
      → (s : Text) × (format_x_forwarded_for net (a ∷ as_) ≡ some s)
        × (parse_x_forwarded_for net (s ∷ []) ≡ some (map net.unmap (a ∷ as_)))
  unfolding parse_x_forwarded_for parse_values
  parse-format a as_ h le =
      let s = join (codes ", ") (map (written net) (a ∷ as_)) in
      let parsed : parse_parts net [] (split b',' (net.trim_space s))
          ≡ some (map net.unmap (a ∷ as_)) =
        ap (λ t. parse_parts net [] (split b',' t)) (trim_join a as_ h)
        ∙ ap (parse_parts net [])
            (split-join (written net a) (map (written net) as_) (All-Lacks (a ∷ as_) h))
        ∙ parse_parts_step [] (written net a) (map spaced (map (written net) as_)) a h.0
            (trim_written a h.0) (omega arith)
        ∙ parse_parts-spaced (net.unmap a ∷ []) as_ h.1 (omega (arith, le)) in
      (s, format_x_forwarded_for_lem net (a ∷ as_) h (omega (arith, le)), ground (arith, parsed))
