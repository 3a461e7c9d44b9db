-- ===== src/Upstream/PassiveHealth/Recovery.antt =====
-- The next recovery of internal/upstream/passive_health_tracker.go.
use mathlib.Core.List.{Memᴰ}
use dev_gate.Common.{
  ℕ, ◌-◌, ◌≤◌, ◌≡◌, refl, ◌⊎◌, String, inl, inr, [], ◌∷◌, Option, none, some, arith, if◌then◌else◌,
  ltb, All, Option-cases, Bool-cases,
}
use dev_gate.Upstream.PassiveHealth.{
  PassiveEndpointHealth, PassiveMap, PassiveHealthTracker, earliest_loop, next_recovery_delay,
}

-- An instant at which a state's ejection ends is not before another.
abbrev pub NotBefore : {Url : Type 0} → ℕ → String × PassiveEndpointHealth Url → Type 0
NotBefore earliest e = elim e.1.ejection_until [ none ↦ Unit | some until ↦ earliest ≤ until ]

abbrev pub NotEjected : {Url : Type 0} → String × PassiveEndpointHealth Url → Type 0
NotEjected e = e.1.ejection_until ≡ none

abbrev pub AtMost : ℕ → Option ℕ → Type 0
AtMost first none = Unit
AtMost first (some a) = first ≤ a

-- The end of an ejection in a map.
abbrev pub EndsAt : {Url : Type 0} → PassiveMap Url → ℕ → Type 0
EndsAt m until = (e : _) × Memᴰ e m × (e.1.ejection_until ≡ some until)

-- The first end of an ejection in a map, if there is one.
unfoldable pub IsEarliest : {Url : Type 0} → PassiveMap Url → Option ℕ → Type 0
IsEarliest m none = All NotEjected m
IsEarliest m (some first) = EndsAt m first × All (NotBefore first) m

module _ {Url : Type 0} where
  -- A loop that ends with no instant saw none.
  earliest_loop-none :
      (earliest : Option ℕ) (m : PassiveMap Url)
      → earliest_loop earliest m ≡ none
      → (earliest ≡ none) × All NotEjected m
  unfolding earliest_loop
  earliest_loop-none earliest [] h = (h, tt)
  earliest_loop-none none ((k, s) ∷ m) h = elim (Option-cases s.ejection_until) [
    | inl e ↦ (refl, (e, (earliest_loop-none none m (rw e at h)).1))
    | inr (u, e) ↦ absurd (cc ((earliest_loop-none (some u) m (rw e at h)).0))
  ]
  earliest_loop-none (some a) ((k, s) ∷ m) h = elim (Option-cases s.ejection_until) [
    | inl e ↦ absurd (cc ((earliest_loop-none (some a) m (rw e at h)).0))
    | inr (u, e) ↦
        absurd (cc ((earliest_loop-none (some (if ltb u a then u else a)) m (rw e at h)).0))
  ]

  -- A loop that ends with an instant saw none before it.
  earliest_loop_first :
      (earliest : Option ℕ) (m : PassiveMap Url) (first : ℕ)
      → earliest_loop earliest m ≡ some first
      → AtMost first earliest × All (NotBefore first) m
  unfolding earliest_loop
  earliest_loop_first none [] first h = (tt, tt)
  earliest_loop_first (some a) [] first h = (ground (arith, h), tt)
  earliest_loop_first none ((k, s) ∷ m) first h = elim (Option-cases s.ejection_until) [
    | inl e ↦ (tt, (rw e tt, (earliest_loop_first none m first (rw e at h)).1))
    | inr (u, e) ↦ let w = earliest_loop_first (some u) m first (rw e at h) in (tt, (rw e w.0, w.1))
  ]
  earliest_loop_first (some a) ((k, s) ∷ m) first h = elim (Option-cases s.ejection_until) [
    | inl e ↦ let w = earliest_loop_first (some a) m first (rw e at h) in (w.0, (rw e tt, w.1))
    | inr (u, e) ↦
        let w = earliest_loop_first (some (if ltb u a then u else a)) m first (rw e at h) in
        (ground (arith, w.0), (rw e (ground (arith, w.0)), w.1))
  ]

  below :
      (k : String) (s : PassiveEndpointHealth Url) (m : PassiveMap Url) (earliest : Option ℕ)
      (first : ℕ)
      → (earliest ≡ some first) ⊎ EndsAt m first
      → (earliest ≡ some first) ⊎ EndsAt ((k, s) ∷ m) first
  below k s m earliest first (inl e) = inl e
  below k s m earliest first (inr w) = inr (w.0, Memᴰ.tail w.1, w.2)

  earliest_loop_end :
      (earliest : Option ℕ) (m : PassiveMap Url) (first : ℕ)
      → earliest_loop earliest m ≡ some first
      → (earliest ≡ some first) ⊎ EndsAt m first
  unfolding earliest_loop
  earliest_loop_end earliest [] first h = inl h
  earliest_loop_end none ((k, s) ∷ m) first h = elim (Option-cases s.ejection_until) [
    | inl e ↦ below k s m none first (earliest_loop_end none m first (rw e at h))
    | inr (u, e) ↦ elim (earliest_loop_end (some u) m first (rw e at h)) [
      | inl f ↦ inr ((k, s), Memᴰ.head refl, ground (arith, e, f))
      | inr w ↦ inr (w.0, Memᴰ.tail w.1, w.2)
    ]
  ]
  earliest_loop_end (some a) ((k, s) ∷ m) first h = elim (Option-cases s.ejection_until) [
    | inl e ↦ below k s m (some a) first (earliest_loop_end (some a) m first (rw e at h))
    | inr (u, e) ↦ elim (earliest_loop_end (some (if ltb u a then u else a)) m first (rw e at h)) [
      | inl f ↦ elim (Bool-cases (ltb u a)) [
        | inl sooner ↦ inr ((k, s), Memᴰ.head refl, ground (arith, e, f, sooner))
        | inr later ↦ inl (ground (arith, f, later))
      ]
      | inr w ↦ inr (w.0, Memᴰ.tail w.1, w.2)
    ]
  ]

  ends : (m : PassiveMap Url) (first : ℕ) → earliest_loop none m ≡ some first → EndsAt m first
  ends m first h = elim (earliest_loop_end none m first h) [ inl e ↦ absurd (cc) | inr w ↦ w ]

  -- The delay that is waited for is the one until the first end of an ejection, and none is when no
  -- endpoint is ejected. An ejection that has ended already is waited for no longer.
  pub next_recovery_delay-IsEarliest :
      (t : PassiveHealthTracker Url) (now : ℕ)
      → (e : Option ℕ) × IsEarliest t.state_by_target e
        × (next_recovery_delay t now ≡ (elim e [ none ↦ none | some until ↦ some (until - now) ]))
  unfolding next_recovery_delay IsEarliest
  next_recovery_delay-IsEarliest t now =
      let m = t.state_by_target in
      elim (Option-cases (earliest_loop none m)) [
        | inl e ↦ (none, (earliest_loop-none none m e).1, rw (e, next_recovery_delay) refl)
        | inr (first, e) ↦ (
          some first,
          (ends m first e, (earliest_loop_first none m first e).1),
          rw (e, next_recovery_delay) refl,
        )
      ]
