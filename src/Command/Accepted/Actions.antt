-- ===== src/Command/Accepted/Actions.antt =====
-- The action of a route that internal/router has validated.
use dev_gate.Common.{
  ◌≡◌, refl, ◌⊎◌, inl, inr, true, false, none, some, arith, codes, text_eq, Result, err, ok,
  Option-cases, Bool-cases, when_some, wrap, ltb, reject, ◌>>◌, ◌==◌,
}
use dev_gate.Router.Std.{Std}
use dev_gate.Router.Route.{DirectResponse, Redirect, Route, Upstream}
use dev_gate.Router.Validation.Upstreams.{validate_upstream}
use dev_gate.Router.Validation.Actions.{
  check_local_action, direct_validation, redirect_validation, location_modified, action_count,
  validate_action, validate_direct, validate_redirect, check_upstream_action, check_direct_action,
  check_redirect_action,
}
use dev_gate.Router.Validation.Headers.{modifies}
use dev_gate.Middleware.Responses.{new_direct, new_redirect}

pub direct_lem :
    (d : DirectResponse) → validate_direct d ≡ ok tt → new_direct d.status_code d.body ≡ ok d
unfolding validate_direct new_direct
direct_lem d e = ground (arith, e)

pub redirect_lem :
    (std : Std) (d : Redirect)
    → validate_redirect std d ≡ ok tt
    → new_redirect d.status_code d.location ≡ ok d
unfolding validate_redirect new_redirect
redirect_lem std d e = ground (arith, e)

pub accepted_upstream :
    (std : Std) (r : Route) (u : Upstream)
    → validate_action std r ≡ ok tt
    → r.upstream ≡ some u
    → (validate_upstream std u ≡ ok tt)
      × ((text_eq r.protocol (codes "http") ≡ true) ⊎ (text_eq r.protocol (codes "grpc") ≡ true))
unfolding validate_action check_upstream_action
accepted_upstream std r u e n = (
  ground (arith, e, n),
  elim (Bool-cases (text_eq r.protocol (codes "http"))) [
    | inl h ↦ inl h
    | inr h ↦ inr (ground (arith, e, n, h))
  ],
)

after_ok {ℓ κ} :
    {E : Type ℓ} {B : Type κ} (m : Result E (Unit {0})) (k : Result E B) {b : B}
    → (m >> k) ≡ ok b
    → k ≡ ok b
after_ok (err x) k e = absurd (cc)
after_ok (ok u) k e = e

wrapped_ok {ℓ κ} :
    {E : Type ℓ} {F : Type κ} (m : Result F (Unit {0})) (f : E → F) (k : Result E (Unit {0}))
    → (m >> wrap f k) ≡ ok tt
    → k ≡ ok tt
wrapped_ok (err x) f k e = absurd (cc)
wrapped_ok (ok u) f (err x) e = absurd (cc)
wrapped_ok (ok u) f (ok tt) e = refl

action_parts :
    (std : Std) (r : Route)
    → validate_action std r ≡ ok tt
    → (check_direct_action std r ≡ ok tt) × (check_redirect_action std r ≡ ok tt)
unfolding validate_action
action_parts std r e = (ground (arith, e), ground (arith, e))

pub accepted_direct :
    (std : Std) (r : Route) (d : DirectResponse)
    → validate_action std r ≡ ok tt
    → r.direct_response ≡ some d
    → validate_direct d ≡ ok tt
unfolding check_direct_action
accepted_direct std r d e n =
    let checked = (action_parts std r e).0 in
    wrapped_ok (check_local_action std r) direct_validation (validate_direct d)
      (rw (n, check_direct_action) at checked)

pub accepted_redirect :
    (std : Std) (r : Route) (d : Redirect)
    → validate_action std r ≡ ok tt
    → r.redirect ≡ some d
    → validate_redirect std d ≡ ok tt
unfolding check_redirect_action
accepted_redirect std r d e n =
    let checked = (action_parts std r e).1 in
    wrapped_ok
      (when_some r.response_headers
        λ p. reject (modifies std p (codes "location")) location_modified)
      redirect_validation (validate_redirect std d)
      (after_ok (check_local_action std r) _ (rw (n, check_redirect_action) at checked))

pub accepted_count :
    (std : Std) (r : Route)
    → validate_action std r ≡ ok tt
    → ((action_count r == 0) ≡ false) × (ltb 1 (action_count r) ≡ false)
unfolding validate_action
accepted_count std r e = (ground (arith, e), ground (arith, e))

pub some_action :
    (r : Route)
    → (action_count r == 0) ≡ false
    → r.upstream ≡ none
    → r.direct_response ≡ none
    → (d : Redirect) × (r.redirect ≡ some d)
unfolding action_count
some_action r e n m = elim (Option-cases r.redirect) [
  | inl k ↦ absurd (ground (arith, e, n, m, k))
  | inr (d, k) ↦ (d, k)
]
