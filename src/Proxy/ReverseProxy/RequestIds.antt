-- ===== src/Proxy/ReverseProxy/RequestIds.antt =====
-- The request identifier of internal/requestid through the proxy of internal/proxy/proxy.go, with the
-- header policies that internal/router accepts.
use dev_gate.Common.{
  ◌≡◌, refl, ◌∙◌, Bool, true, false, inl, inr, List, [], ◌∷◌, Option, none, some, arith, Text,
  codes, text_eq, text_eq_iff, Bool-cases, Result-cases, ok, split, ◌||◌,
}
use dev_gate.Http.{Headers}
use dev_gate.Router.Std.{Std}
use dev_gate.Router.Route.{HeaderTransformPolicy, apply_policy, remove_each, set_each}
use dev_gate.Router.Validation.Headers.{check_set, check_remove, validate_policy}
use dev_gate.Proxy.Netip.{Netip}
use dev_gate.Proxy.ReverseProxy.{ReverseProxy}
use dev_gate.Middleware.RequestId.{header_name}

module _ {H : Type 0} (std : Std) (headers : Headers std.to_lower H) (reserved : Text → Bool)
    (name : Text) (held : reserved name ≡ true)
    (folds : (a b : Text) → std.to_lower a ≡ std.to_lower b → reserved a ≡ reserved b) where
  -- A name that is not reserved is not that of a reserved one.
  unreserved :
      (a : Text) → reserved a ≡ false → text_eq (std.to_lower a) (std.to_lower name) ≡ false
  unreserved a e = elim (Bool-cases (text_eq (std.to_lower a) (std.to_lower name))) [
    | inr n ↦ n
    | inl same ↦ absurd (ground (arith, e, held, folds a name ((text_eq_iff _ _).0 same)))
  ]

  set_each_reserved :
      (h : H) (names : List Text) (entries : List (Text × Text)) (found : List Text)
      → check_set std reserved names entries ≡ ok found
      → headers.values (set_each headers.del headers.set_header entries h) name
        ≡ headers.values h name
  unfolding check_set set_each
  set_each_reserved h names [] found e = refl
  set_each_reserved h names ((a, value) ∷ rest) found e =
      set_each_reserved (headers.set_header h a value) (std.to_lower a ∷ names) rest found
        (ground (arith, e))
      ∙ headers.values_set_other h a value name (unreserved a (ground (arith, e)))

  remove_each_reserved :
      (h : H) (set_names seen : List Text) (names : List Text)
      → check_remove std reserved set_names seen names ≡ ok tt
      → headers.values (remove_each headers.del headers.set_header names h) name
        ≡ headers.values h name
  unfolding check_remove remove_each
  remove_each_reserved h set_names seen [] e = refl
  remove_each_reserved h set_names seen (a ∷ rest) e =
      remove_each_reserved (headers.del h a) set_names (std.to_lower a ∷ seen) rest
        (ground (arith, e))
      ∙ headers.values_del_other h a name (unreserved a (ground (arith, e)))

  -- A header policy that is accepted leaves the values of a reserved name.
  pub apply_policy_reserved :
      (p : HeaderTransformPolicy) (h : H)
      → validate_policy std reserved p ≡ ok tt
      → headers.values (apply_policy headers.del headers.set_header p h) name
        ≡ headers.values h name
  unfolding validate_policy apply_policy
  apply_policy_reserved p h e = elim (Result-cases (check_set std reserved [] p.set)) [
    | inl (x, f) ↦ absurd (ground (arith, e, f))
    | inr (found, f) ↦
        set_each_reserved (remove_each headers.del headers.set_header p.remove h) [] p.set found f
        ∙ remove_each_reserved h found [] p.remove (rw f at e)
  ]

-- strings.ToLower on the three names.
pub record LowersNames (std : Std) : Type 0 where
  pub lower_request_id : std.to_lower header_name ≡ codes "x-request-id"
  pub lower_forwarded_for : std.to_lower (codes "X-Forwarded-For") ≡ codes "x-forwarded-for"
  pub lower_connection : std.to_lower (codes "Connection") ≡ codes "connection"

abbrev pub applied :
    {lower : Text → Text} {H : Type 0}
    → Headers lower H
    → Option HeaderTransformPolicy
    → Option (H → H)
applied headers none = none
applied headers (some p) = some (apply_policy headers.del headers.set_header p)

module _ {H : Type 0} (std : Std) (headers : Headers std.to_lower H) where
  -- One of the texts is a name in lower case, up to spaces and case.
  unfoldable pub names_one : Text → List Text → Bool
  unfolding text_eq
  names_one name [] = false
  names_one name (part ∷ parts) =
      text_eq (std.to_lower (std.trim_space part)) name || names_one name parts

  unfoldable pub lists : Text → List Text → Bool
  unfolding names_one
  lists name [] = false
  lists name (value ∷ values) = names_one name (split b',' value) || lists name values

  -- Whether the Connection header lists a name, so that the header of that name is one between the
  -- client and the gateway only.
  abbrev pub is_hop_by_hop : H → Text → Bool
  is_hop_by_hop h name = lists (std.to_lower name) (headers.values h (codes "Connection"))
