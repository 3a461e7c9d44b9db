-- ===== src/Upstream/PassiveHealth/Stale.antt =====
-- Outcomes that come too late, in internal/upstream/passive_health_tracker.go.
use text.Mathlib.TextEquality.{eq_iff}
use dev_gate.Common.{
  ℕ, zero, suc, ◌+◌, ◌<◌, ◌≡◌, ◌≢◌, refl, true, false, List, [], ◌∷◌, some, arith, word, ℤ, lookup,
  insert, lookup-insert, Option-cases, inl, inr, ◌≤◌, String, none, length, get_elem?, All, is_some,
  ok,
}
use dev_gate.Upstream.PassiveHealth.{
  PassiveEndpointHealth, PassiveHealthTracker, PassivePermit, PassiveOutcome, PassiveMap, fresh,
  new, replace, replace_loop, record_outcome,
}
use dev_gate.Upstream.PassiveHealth.Permits.{Older}
use dev_gate.Upstream.PassiveHealth.InFlight.{Op, run, run-Inv, new-Inv}

All-get_elem? {ℓ κ} :
    {A : Type ℓ} (P : A → Type κ) (xs : List A) (i : ℕ) (x : A)
    → get_elem? xs i ≡ some x
    → All P xs
    → P x
All-get_elem? P [] i x e h = absurd (cc)
All-get_elem? P (y ∷ xs) zero x e h = ground (arith, h.0)
All-get_elem? P (y ∷ xs) (suc i) x e h = All-get_elem? P xs i x e h.1

nothing : {Url : Type 0} (k : String) (s : PassiveEndpointHealth Url) → lookup k [] ≢ some s
unfolding lookup
nothing k s e = absurd (cc)

module _ {Url : Type 0} (url_string : Url → String) where
  -- While an endpoint is ejected, the outcomes of the requests that were sent to it before have no
  -- effect: none restarts its ejection, and none ends it. This is so after every history of
  -- requests, recorded outcomes, replaced endpoints and readings of the healthy endpoints with
  -- fewer than 2 ^ 63 steps from a new tracker.
  pub ejected_kept :
      (us : List Url) (threshold duration : ℤ) (t : PassiveHealthTracker Url) (os : List (Op Url))
      (i : ℕ) (p : PassivePermit) (s : PassiveEndpointHealth Url) (outcome : PassiveOutcome)
      (now : ℕ)
      → new url_string us threshold duration ≡ ok t
      → length os + length os < word
      → let after = run url_string (record { tracker = t; in_flight = [] }) os in
        get_elem? after.in_flight i ≡ some p
        → lookup p.key after.tracker.state_by_target ≡ some s
        → is_some s.ejection_until ≡ true
        → record_outcome after.tracker p outcome now ≡ (after.tracker, false)
  unfolding record_outcome
  ejected_kept us threshold duration t os i p s outcome now made small found held ejected =
      let (n, v) =
        run-Inv url_string 0 (record { tracker = t; in_flight = [] }) os (omega (arith, small))
          (new-Inv url_string us threshold duration t made) in
      let after = run url_string (record { tracker = t; in_flight = [] }) os in
      let older = All-get_elem? (Older p.key s) after.in_flight i p found (v.older p.key s held) in
      ground (arith, older.ejected refl)

  -- The states that Replace makes for an endpoint that was not there have new addresses.
  replace_loop_fresh :
      (k : String) (next a : ℕ) (old m : PassiveMap Url) (us : List Url)
      (s : PassiveEndpointHealth Url)
      → next ≤ a
      → lookup k old ≡ none
      → ((r : PassiveEndpointHealth Url) → lookup k m ≡ some r → next ≤ r.address)
      → lookup k (replace_loop url_string old m a us).0 ≡ some s
      → next ≤ s.address
  unfolding replace_loop
  replace_loop_fresh k next a old m [] s le gone new_only e = new_only s e
  replace_loop_fresh k next a old m (u ∷ us) s le gone new_only e =
      let j = url_string u in
      elim (Option-cases (lookup j old)) [
        | inl absent ↦
            replace_loop_fresh k next (a + 1) old (insert j (fresh a u) m) us s (omega arith) gone
              (λ r f. ground (arith, lookup-insert j k (fresh a u) m, new_only r, f, le))
              (rw (absent, replace_loop) at e)
        | inr (h, there) ↦
            replace_loop_fresh k next a old (insert j (record h { target = u }) m) us s le gone
              (λ r f. ground (
                arith,
                lookup-insert j k (record h { target = u }) m,
                new_only r,
                f,
                gone,
                there,
                eq_iff j k,
              ))
              (rw (there, replace_loop) at e)
      ]

  -- After every history of requests, recorded outcomes, replaced endpoints and readings of the
  -- healthy endpoints with fewer than 2 ^ 63 steps from a new tracker, if an endpoint is not tracked
  -- any more and is published again, the outcomes of the requests that were sent to it before do not
  -- count for it.
  pub readded_kept :
      (us : List Url) (threshold duration : ℤ) (t : PassiveHealthTracker Url) (os : List (Op Url))
      (vs : List Url) (i : ℕ) (p : PassivePermit) (outcome : PassiveOutcome) (now : ℕ)
      → new url_string us threshold duration ≡ ok t
      → length os + length os < word
      → let after = run url_string (record { tracker = t; in_flight = [] }) os in
        get_elem? after.in_flight i ≡ some p
        → lookup p.key after.tracker.state_by_target ≡ none
        → let published = replace url_string after.tracker vs in
          record_outcome published p outcome now ≡ (published, false)
  unfolding record_outcome replace
  readded_kept us threshold duration t os vs i p outcome now made small found gone =
      let (n, v) =
        run-Inv url_string 0 (record { tracker = t; in_flight = [] }) os (omega (arith, small))
          (new-Inv url_string us threshold duration t made) in
      let after = run url_string (record { tracker = t; in_flight = [] }) os in
      let next = after.tracker.next_address in
      let known : p.state < next =
        All-get_elem? (λ (q : PassivePermit). q.state < next) after.in_flight i p found
          v.allocated in
      let published = replace url_string after.tracker vs in
      elim (Option-cases (lookup p.key published.state_by_target)) [
        | inl absent ↦ rw (absent, record_outcome) refl
        | inr (s, there) ↦
            let far : next ≤ s.address =
              replace_loop_fresh p.key next next after.tracker.state_by_target [] vs s (omega arith)
                gone (λ r f. absurd (nothing p.key r f)) there in
            ground (arith, there, far, known)
      ]
