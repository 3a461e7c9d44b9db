-- ===== src/Discovery/Dns.antt =====
-- internal/discovery/dns.go. A `U` is a `url.URL`, an `A` is a `netip.Addr`, and the answer of the
-- resolver is an argument.
use dev_gate.Common.{
  ◌≡◌, refl, ap, ◌↔◌, Bool, true, false, not, ◌&&◌, ◌||◌, List, [], ◌∷◌, Option, none, some, arith,
  if◌then◌else◌, is_empty, map, Text, codes, text_eq, Result, err, ok,
}

-- What is asked of net/url, net and net/netip.
pub record Addressing (U A : Type 0) : Type 0 where
  pub scheme : U → Text
  pub hostname : U → Text
  pub port : U → Text
  pub with_host : U → Text → U  -- the URL with another field `Host`
  pub join_host_port : Text → Text → Text
  pub addr_text : A → Text
  pub addr_eq : A → A → Bool

pub data ResolveError : Type 0 where
  context_done scheme_not_http hostname_missing lookup_failed : ResolveError

module _ {U A : Type 0} (net : Addressing U A) where
  -- The URL of a resolved address.
  abbrev pub endpoint : U → A → U
  endpoint target a =
      let port = if is_empty (net.port target) then codes "80" else net.port target in
      net.with_host target (net.join_host_port (net.addr_text a) port)

  abbrev pub is_seen : List A → A → Bool
  is_seen [] a = false
  is_seen (b ∷ bs) a = net.addr_eq b a || is_seen bs a

  -- The loop of Resolve.
  unfoldable pub expand : U → List A → List A → List U
  expand target seen [] = []
  expand target seen (a ∷ as_) =
      if is_seen seen a
      then expand target seen as_
      else endpoint target a ∷ expand target (a ∷ seen) as_

  -- Resolve; `done` is `ctx.Err() != nil`, and `lookup` the answer of LookupNetIP.
  unfoldable pub resolve : Bool → (Text → Option (List A)) → U → Result ResolveError (List U)
  unfolding expand text_eq
  resolve done lookup target =
      if done
      then err context_done
      else if not (text_eq (net.scheme target) (codes "http"))
      then err scheme_not_http
      else if is_empty (net.hostname target)
      then err hostname_missing
      else elim (lookup (net.hostname target)) [
        | none ↦ err lookup_failed
        | some addrs ↦ ok (expand target [] addrs)
      ]

  -- Each address at its first place.
  abbrev pub firsts : List A → List A → List A
  firsts seen [] = []
  firsts seen (a ∷ as_) = if is_seen seen a then firsts seen as_ else a ∷ firsts (a ∷ seen) as_

  abbrev pub distinct : List A → Bool
  distinct [] = true
  distinct (a ∷ as_) = not (is_seen as_ a) && distinct as_

  expand-firsts :
      (target : U) (seen as_ : List A)
      → expand target seen as_ ≡ map (endpoint target) (firsts seen as_)
  unfolding expand
  expand-firsts target seen [] = refl
  expand-firsts target seen (a ∷ as_) =
      ground (arith, expand-firsts target seen as_, expand-firsts target (a ∷ seen) as_)

  module _ (eq : (a b : A) → (net.addr_eq a b ≡ true) ↔ (a ≡ b)) where
    is_seen-firsts :
        (seen as_ : List A) (a : A)
        → is_seen (firsts seen as_) a ≡ (is_seen as_ a && not (is_seen seen a))
    is_seen-firsts seen [] a = refl
    is_seen-firsts seen (b ∷ as_) a =
        ground (arith, is_seen-firsts seen as_ a, is_seen-firsts (b ∷ seen) as_ a, eq b a)

    distinct-firsts : (seen as_ : List A) → distinct (firsts seen as_) ≡ true
    distinct-firsts seen [] = refl
    distinct-firsts seen (a ∷ as_) = ground (
      arith,
      distinct-firsts seen as_,
      distinct-firsts (a ∷ seen) as_,
      is_seen-firsts (a ∷ seen) as_ a,
      (eq a a).1 refl,
    )

    -- For an http target with a hostname, on a context that is not done, and for a resolver that
    -- answers with addresses, Resolve gives a URL for each of these just once: they are the URLs of
    -- addresses that are pairwise distinct, of which an address is one exactly when it was answered.
    pub resolve_lem :
        (lookup : Text → Option (List A)) (target : U) (addrs : List A)
        → text_eq (net.scheme target) (codes "http") ≡ true
        → is_empty (net.hostname target) ≡ false
        → lookup (net.hostname target) ≡ some addrs
        → (chosen : List A) × (resolve false lookup target ≡ ok (map (endpoint target) chosen))
          × (distinct chosen ≡ true)
          × ((a : A) → is_seen chosen a ≡ is_seen addrs a)
    unfolding resolve
    resolve_lem lookup target addrs http named answered = (
      firsts [] addrs,
      rw (http, named, answered, resolve) (ap ok (expand-firsts target [] addrs)),
      distinct-firsts [] addrs,
      λ a. ground (arith, is_seen-firsts [] addrs a),
    )
