-- ===== src/Discovery/Published.antt =====
-- What the watcher of internal/discovery/dns_watcher.go publishes through the coordinator of
-- internal/upstream/endpoint_coordinator.go.
use dev_gate.Common.{
  ◌≡◌, refl, sym, ap, ◌∙◌, subst, String, List, [], ◌∷◌, ◌++◌, none, some, arith, if◌then◌else◌,
  length, Option-cases, Bool-cases, inl, inr,
}
use dev_gate.Upstream.EndpointMembership
use dev_gate.Upstream.Picker.{ReplaceablePicker}
use dev_gate.Upstream.EndpointCoordinator.{EndpointCoordinator, apply}
use dev_gate.Upstream.EndpointCoordinator.Publication.{apply_lem}
use dev_gate.Upstream.EndpointCoordinator.Reading.{ActiveInv, after-Inv}
use dev_gate.Discovery.Watcher.{Lookup, Refreshed, refresh, run, resolve_failed}

module _ {U : Type 0} where
  -- The last answer that is published, or what was there before.
  abbrev pub last_published : List U → List (Lookup U) → List U
  last_published us [] = us
  last_published us (l ∷ ls) =
      if l.done
      then last_published us ls
      else elim l.answer [ none ↦ last_published us ls | some vs ↦ last_published vs ls ]

  -- What is recorded when nothing that is published fails.
  abbrev pub report : Lookup U → List Refreshed
  report l =
      if l.done
      then []
      else elim l.answer [ none ↦ (0, some resolve_failed) ∷ [] | some us ↦ (length us, none) ∷ [] ]

  abbrev pub reports : List (Lookup U) → List Refreshed
  reports [] = []
  reports (l ∷ ls) = report l ++ reports ls

module _ {Url R P : Type 0} (url_string : Url → String) (pickers : ReplaceablePicker Url R P) where
  refresh_lem :
      (c : EndpointCoordinator Url P) (l : Lookup Url)
      → ActiveInv url_string c.active_tracker
      → (c' : EndpointCoordinator Url P) × (refresh (apply url_string pickers) c l
          ≡ some (c', report l))
        × (EndpointMembership.healthy_endpoints c'.membership
            ≡ last_published (EndpointMembership.healthy_endpoints c.membership) (l ∷ []))
        × ActiveInv url_string c'.active_tracker
  unfolding refresh
  refresh_lem c l v = elim (Bool-cases l.done) [
    | inl e ↦ (c, ground (arith, e), ground (arith, e), v)
    | inr e ↦ elim (Option-cases l.answer) [
      | inl n ↦ (c, ground (arith, e, n), ground (arith, e, n), v)
      | inr (us, n) ↦
          let (c', r, m, t, q) = apply_lem url_string pickers c us l.now v in
          (
            c',
            ground (arith, e, n, r),
            ground (arith, e, n, m),
            subst (λ o. ActiveInv url_string o) (sym t)
                (after-Inv url_string c.active_tracker us v),
          )
    ]
  ]

  last_published-∷ :
      (us : List Url) (l : Lookup Url) (ls : List (Lookup Url))
      → last_published us (l ∷ ls) ≡ last_published (last_published us (l ∷ [])) ls
  last_published-∷ us l ls = ground arith

  -- Through any refreshes of the watcher over a coordinator whose active tracker, where there is
  -- one, keeps its invariant, nothing panics and no publication fails. The membership is the last
  -- answer of the resolver that came while the context was not done, or what it was before if there
  -- is none; each such refresh is recorded, with the number of its endpoints or the failure of its
  -- lookup.
  pub run_published :
      (c : EndpointCoordinator Url P) (ls : List (Lookup Url))
      → ActiveInv url_string c.active_tracker
      → (c' : EndpointCoordinator Url P) × (run (apply url_string pickers) c ls
          ≡ some (c', reports ls))
        × (EndpointMembership.healthy_endpoints c'.membership
            ≡ last_published (EndpointMembership.healthy_endpoints c.membership) ls)
        × ActiveInv url_string c'.active_tracker
  unfolding run
  run_published c [] v = (c, refl, refl, v)
  run_published c (l ∷ ls) v =
      let (c₁, r₁, m₁, v₁) = refresh_lem c l v in
      let (c₂, r₂, m₂, v₂) = run_published c₁ ls v₁ in
      (
        c₂,
        rw (r₁, run) rw r₂ refl,
        m₂
            ∙ ap (λ us. last_published us ls) m₁
            ∙ sym (last_published-∷ (EndpointMembership.healthy_endpoints c.membership) l ls),
        v₂,
      )
