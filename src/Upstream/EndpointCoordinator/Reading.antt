-- ===== src/Upstream/EndpointCoordinator/Reading.antt =====
-- What the composite source of internal/upstream/endpoint_coordinator.go reports of its trackers.
use dev_gate.Common.{
  ℕ, ◌≡◌, refl, ap, ◌∙◌, Bool, true, false, ◌&&◌, String, List, [], ◌∷◌, Option, none, some, arith,
  select,
}
use dev_gate.Upstream.EndpointMembership.{EndpointMembership}
use dev_gate.Upstream.EndpointMembership
use dev_gate.Upstream.CompositeHealthSource.{intersect_loop, allows}
use dev_gate.Upstream.CompositeHealthSource
use dev_gate.Upstream.HealthTracker.{HealthTracker}
use dev_gate.Upstream.HealthTracker
use dev_gate.Upstream.HealthTracker.Laws.{Inv}
use dev_gate.Upstream.HealthTracker.History.{replace-Inv, healthy_endpoints_lem}
use dev_gate.Upstream.PassiveHealth.{PassiveHealthTracker}
use dev_gate.Upstream.PassiveHealth
use dev_gate.Upstream.HealthAwarePicker.{HealthAwarePicker}
use dev_gate.Upstream.EndpointCoordinator.{
  membership_source, active_source, passive_source, healthy_endpoints, sources, active_listing,
}

module _ {Url : Type 0} (url_string : Url → String) where
  -- Whether the trackers, where there are any, list an endpoint's text.
  abbrev pub active_allows : Option (HealthTracker Url) → Url → Bool
  active_allows none u = true
  active_allows (some t) u = elim (HealthTracker.healthy_endpoints url_string t) [
    | none ↦ false
    | some listing ↦ allows url_string listing (url_string u)
  ]

  abbrev pub passive_allows : Option (PassiveHealthTracker Url) → ℕ → Url → Bool
  passive_allows none now u = true
  passive_allows (some t) now u =
      allows url_string (PassiveHealth.healthy_endpoints url_string t now).1 (url_string u)

  abbrev pub both_allow :
      Option (HealthTracker Url) → Option (PassiveHealthTracker Url) → ℕ → Url → Bool
  both_allow active passive now u = active_allows active u && passive_allows passive now u

  -- The trackers, where there are any, after their Replace.
  abbrev pub active_after : Option (HealthTracker Url) → List Url → Option (HealthTracker Url)
  active_after none us = none
  active_after (some t) us = some (HealthTracker.replace url_string t us).0

  abbrev pub passive_after :
      Option (PassiveHealthTracker Url) → List Url → Option (PassiveHealthTracker Url)
  passive_after none us = none
  passive_after (some t) us = some (PassiveHealth.replace url_string t us)

  -- The trackers that Apply can be given.
  abbrev pub ActiveInv : Option (HealthTracker Url) → Type 0
  ActiveInv none = true ≡ true
  ActiveInv (some t) = Inv url_string t

  listing-Inv :
      (o : Option (HealthTracker Url))
      → ActiveInv o
      → (us : List Url) × (active_listing url_string o ≡ some us)
  unfolding active_listing
  listing-Inv none v = ([], refl)
  listing-Inv (some t) v = let (us, e, q) = healthy_endpoints_lem url_string t v in (us, e)

  active_allows_lem :
      (t : HealthTracker Url) (us : List Url)
      → active_listing url_string (some t) ≡ some us
      → (u : Url) → active_allows (some t) u ≡ allows url_string us (url_string u)
  unfolding active_listing
  active_allows_lem t us e u = ground (arith, e)

  pub after-Inv :
      (o : Option (HealthTracker Url)) (us : List Url) → ActiveInv o → ActiveInv (active_after o us)
  after-Inv none us v = refl
  after-Inv (some t) us v = replace-Inv url_string t us v

select-select {ℓ} :
    {A : Type ℓ} (p q : A → Bool) (xs : List A)
    → select q (select p xs) ≡ select (λ x. p x && q x) xs
select-select p q [] = refl
select-select p q (x ∷ xs) = ground (arith, select-select p q xs)

select_ext {ℓ} :
    {A : Type ℓ} (p q : A → Bool) (xs : List A) → ((x : A) → p x ≡ q x) → select p xs ≡ select q xs
select_ext p q [] e = refl
select_ext p q (x ∷ xs) e = ground (arith, e x, select_ext p q xs e)

select-true {ℓ} : {A : Type ℓ} (xs : List A) → xs ≡ select (λ x. true) xs
select-true [] = refl
select-true (x ∷ xs) = ap (◌∷◌ x) (select-true xs)

some_pair :
    {A B : Type 0} (a : A) (b b' : B)
    → b ≡ b'
    → ◌≡◌ {A = Option (A × B)} (some (a, b)) (some (a, b'))
some_pair a b b' e = ap (λ x. some (a, x)) e

module _ {Url P : Type 0} (url_string : Url → String) where
  -- The reading of the composite source.
  pub reading_lem :
      (m : EndpointMembership Url) (p : HealthAwarePicker P) (a : Option (HealthTracker Url))
      (b : Option (PassiveHealthTracker Url)) (now : ℕ)
      → ActiveInv url_string a
      → (b' : Option (PassiveHealthTracker Url)) × (healthy_endpoints url_string
            (record { membership = m; picker = p; active_tracker = a; passive_tracker = b })
            now
          ≡ some (
            record { membership = m; picker = p; active_tracker = a; passive_tracker = b' },
            select (both_allow url_string a b now) (EndpointMembership.healthy_endpoints m),
          ))
  unfolding healthy_endpoints sources membership_source active_source passive_source
      CompositeHealthSource.healthy_endpoints intersect_loop
  reading_lem m p none none now v =
      (none, some_pair _ _ _ (select-true (EndpointMembership.healthy_endpoints m)))
  reading_lem m p none (some t) now v =
      (some (PassiveHealth.healthy_endpoints url_string t now).0, refl)
  reading_lem m p (some t) none now v =
      let (us, e) = listing-Inv url_string (some t) v in
      let listed : Url → Bool = λ u. allows url_string us (url_string u) in
      (
        none,
        rw (e, healthy_endpoints)
            (some_pair _ _ _ (
              select_ext listed (both_allow url_string (some t) none now)
                (EndpointMembership.healthy_endpoints m)
                (λ u. rw (active_allows_lem url_string t us e u) ground arith))),
      )
  reading_lem m p (some t) (some t') now v =
      let (us, e) = listing-Inv url_string (some t) v in
      let listed : Url → Bool = λ u. allows url_string us (url_string u) in
      (
        some (PassiveHealth.healthy_endpoints url_string t' now).0,
        rw (e, healthy_endpoints)
            (some_pair _ _ _ (
              select-select listed (passive_allows url_string (some t') now)
                (EndpointMembership.healthy_endpoints m)
              ∙ select_ext (λ u. listed u && passive_allows url_string (some t') now u)
                  (both_allow url_string (some t) (some t') now)
                  (EndpointMembership.healthy_endpoints m)
                  (λ u. rw (active_allows_lem url_string t us e u) refl))),
      )
