-- ===== src/Command/PassiveObserver/Ends.antt =====
-- The ends of the ejections in a map of internal/upstream/passive_health_tracker.go, which no operation
-- but an ejection adds.
use text.Mathlib.TextEquality.{eq_iff}
use dev_gate.Common.{
  ℕ, suc, ◌+◌, ◌≤◌, ◌≡◌, inl, inr, false, String, List, [], ◌∷◌, Option, none, some, arith, lookup,
  insert, lookup-insert, All, All-lookup, Option-cases,
}
use dev_gate.Upstream.PassiveHealth.{
  PassiveEndpointHealth, PassiveMap, PassiveHealthTracker, PassivePermit, PassiveOutcome, fresh,
  endpoint_available, count_outcome, healthy_loop, replace_loop, acquire_permit, record_outcome,
}
use dev_gate.Upstream.PassiveHealth.Recovery.{NotBefore, NotEjected}

-- The end of the ejection of an endpoint, if it is ejected.
unfoldable pub end_of : {Url : Type 0} → String → PassiveMap Url → Option ℕ
unfolding lookup
end_of k m = elim (lookup k m) [ none ↦ none | some s ↦ s.ejection_until ]

-- No end of an ejection is in the new map alone.
abbrev pub NoneNew : {Url : Type 0} → PassiveMap Url → PassiveMap Url → Type 0
NoneNew old new = (k : String) (until : ℕ) → end_of k new ≡ some until → end_of k old ≡ some until

available_end :
    {Url : Type 0} (s : PassiveEndpointHealth Url) (now until : ℕ)
    → (endpoint_available s now).0.ejection_until ≡ some until
    → s.ejection_until ≡ some until
unfolding endpoint_available
available_end s now until e = ground (arith, e)

module _ {Url : Type 0} (url_string : Url → String) where
  insert-NoneNew :
      (k : String) (s s' : PassiveEndpointHealth Url) (m : PassiveMap Url)
      → lookup k m ≡ some s
      → ((until : ℕ) → s'.ejection_until ≡ some until → s.ejection_until ≡ some until)
      → NoneNew m (insert k s' m)
  unfolding end_of
  insert-NoneNew k s s' m e ends j until h =
      ground (arith, e, ends until, h, lookup-insert k j s' m, eq_iff k j)

  pub enter-NoneNew :
      (t : PassiveHealthTracker Url) (u : Url) (now : ℕ)
      → NoneNew t.state_by_target (acquire_permit url_string t u now).0.state_by_target
  unfolding acquire_permit
  enter-NoneNew t u now = elim (Option-cases (lookup (url_string u) t.state_by_target)) [
    | inl n ↦ rw (n, acquire_permit) (λ k until e. e)
    | inr (s, n) ↦
        rw (n, acquire_permit)
          (insert-NoneNew (url_string u) s (endpoint_available s now).0 t.state_by_target n
            (available_end s now))
  ]

  pub read-NoneNew :
      (now : ℕ) (m : PassiveMap Url) (us : List Url)
      → NoneNew m (healthy_loop url_string now m us).0
  unfolding healthy_loop
  read-NoneNew now m [] k until e = e
  read-NoneNew now m (u ∷ us) k until e = elim (Option-cases (lookup (url_string u) m)) [
    | inl n ↦ read-NoneNew now m us k until (rw (n, healthy_loop) at e)
    | inr (s, n) ↦
        let s' = (endpoint_available s now).0 in
        insert-NoneNew (url_string u) s s' m n (available_end s now) k until
          (read-NoneNew now (insert (url_string u) s' m) us k until (rw (n, healthy_loop) at e))
  ]

  -- The map that Replace builds.
  pub publish-NoneNew :
      (old m : PassiveMap Url) (a : ℕ) (us : List Url)
      → NoneNew old m
      → NoneNew old (replace_loop url_string old m a us).0
  unfolding replace_loop end_of
  publish-NoneNew old m a [] h k until e = h k until e
  publish-NoneNew old m a (u ∷ us) h k until e = elim (Option-cases (lookup (url_string u) old)) [
    | inl n ↦
        publish-NoneNew old (insert (url_string u) (fresh a u) m) (a + 1) us
          (λ j b q. ground (arith, h j b, q, lookup-insert (url_string u) j (fresh a u) m)) k until
          (rw (n, replace_loop) at e)
    | inr (s, n) ↦
        let s' : PassiveEndpointHealth Url = record s { target = u } in
        publish-NoneNew old (insert (url_string u) s' m) a us
          (λ j b q.
            ground
              (arith, h j b, n, q, lookup-insert (url_string u) j s' m, eq_iff (url_string u) j))
          k until (rw (n, replace_loop) at e)
  ]

  pub count-NoneNew :
      (t : PassiveHealthTracker Url) (p : PassivePermit) (outcome : PassiveOutcome) (now : ℕ)
      → (record_outcome t p outcome now).1 ≡ false
      → NoneNew t.state_by_target (record_outcome t p outcome now).0.state_by_target
  unfolding record_outcome count_outcome end_of
  count-NoneNew t p outcome now quiet k until e =
      elim (Option-cases (lookup p.key t.state_by_target)) [
        | inl n ↦ ground (arith, n, e)
        | inr (s, n) ↦
            let s' = (count_outcome t.failure_threshold t.ejection_duration s outcome now).0 in
            ground (arith, quiet, n, e, lookup-insert p.key k s' t.state_by_target, eq_iff p.key k)
      ]

pub NotEjected-end :
    {Url : Type 0} (m : PassiveMap Url) (k : String) (until : ℕ)
    → All NotEjected m
    → end_of k m ≡ some until
    → 0 ≡ suc 0
unfolding end_of
NotEjected-end m k until all e = elim (Option-cases (lookup k m)) [
  | inl n ↦ absurd (ground (arith, n, e))
  | inr (s, n) ↦
      let none_left = All-lookup (λ x. x.ejection_until ≡ none) k s m all n in
      absurd (ground (arith, n, e, none_left))
]

pub NotBefore-end :
    {Url : Type 0} (m : PassiveMap Url) (k : String) (first until : ℕ)
    → All (NotBefore first) m
    → end_of k m ≡ some until
    → first ≤ until
unfolding end_of
NotBefore-end m k first until all e = elim (Option-cases (lookup k m)) [
  | inl n ↦ absurd (ground (arith, n, e))
  | inr (s, n) ↦
      let due : NotBefore first (k, s) = All-lookup (λ x. NotBefore first (k, x)) k s m all n in
      let ends : s.ejection_until ≡ some until = ground (arith, n, e) in rw ends at due
]
