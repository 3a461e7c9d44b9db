-- ===== src/Upstream/PassiveHealth/Operations.antt =====
-- What the operations of internal/upstream/passive_health_tracker.go do to the map and the permits in flight.
use text.Mathlib.TextEquality.{eq_iff}
use dev_gate.Common.{
  ℕ, suc, ◌+◌, ◌≤◌, ◌<◌, ◌≡◌, String, true, false, inl, inr, List, [], ◌∷◌, some, arith, ◌==◌, word,
  lookup, insert, lookup-insert, All, is_some, Option-cases, Bool-cases, not, ◌||◌,
}
use dev_gate.Upstream.PassiveHealth.{
  PassiveEndpointHealth, PassiveMap, PassiveHealthTracker, PassivePermit, PassiveOutcome, fresh,
  endpoint_available, count_outcome, fill, healthy_loop, replace_loop, record_outcome,
}
use dev_gate.Upstream.PassiveHealth.Permits.{
  Older, MapInv, insert-MapInv, later-MapInv, available-Older, count-Older, available_bounds,
  count_bounds,
}

module _ {Url : Type 0} where
  pub empty-MapInv :
      (n next : ℕ) (ps : List PassivePermit)
      → All (λ (p : PassivePermit). p.state < next) ps
      → MapInv {Url = Url} n next [] ps
  unfolding lookup
  empty-MapInv n next ps h = record {
    older = λ k s e. absurd (cc);
    bounded = λ k s e. absurd (cc);
    placed = λ k s e. absurd (cc);
    allocated = h;
  }

  fresh-Older :
      (k : String) (u : Url) (next a : ℕ) (ps : List PassivePermit)
      → next ≤ a
      → All (λ (p : PassivePermit). p.state < next) ps
      → All (Older k (fresh a u)) ps
  fresh-Older k u next a [] le h = tt
  fresh-Older k u next a (p ∷ ps) le h = (
    record {
      issued = λ e f. absurd (omega (arith, f, h.0));
      ejected = λ e f g. absurd (omega (arith, f, h.0));
    },
    fresh-Older k u next a ps le h.1,
  )

  same-Older :
      (k : String) (u : Url) (s : PassiveEndpointHealth Url) (ps : List PassivePermit)
      → All (Older k s) ps
      → All (Older k (record s { target = u })) ps
  same-Older k u s [] h = tt
  same-Older k u s (p ∷ ps) h =
      (record { issued = h.0.issued; ejected = h.0.ejected }, same-Older k u s ps h.1)

  pub written :
      (k : String) (s : PassiveEndpointHealth Url) (m : PassiveMap Url)
      → lookup k (insert k s m) ≡ some s
  written k s m = ground (arith, lookup-insert k k s m, eq_iff k k)

  pub available_free :
      (s : PassiveEndpointHealth Url) (now : ℕ)
      → (endpoint_available s now).1 ≡ true
      → is_some (endpoint_available s now).0.ejection_until ≡ false
  unfolding endpoint_available
  available_free s now e = ground arith

  pub issued-MapInv :
      (n next : ℕ) (m : PassiveMap Url) (ps : List PassivePermit) (s : PassiveEndpointHealth Url)
      (p : PassivePermit)
      → lookup p.key m ≡ some s
      → p.generation ≡ s.generation
      → is_some s.ejection_until ≡ false
      → p.state < next
      → MapInv n next m ps
      → MapInv n next m (p ∷ ps)
  issued-MapInv n next m ps s p found e free lt v = record {
    older = λ k u f. (
      record {
        issued = λ a b. let same : s ≡ u = ground (arith, found, f, a) in ground (arith, e, same);
        ejected = λ a b c.
            let same : s ≡ u = ground (arith, found, f, a) in
            absurd (ground (arith, free, same, c));
      },
      v.older k u f,
    );
    bounded = v.bounded;
    placed = v.placed;
    allocated = (lt, v.allocated);
  }

  pub record-MapInv :
      (n : ℕ) (t : PassiveHealthTracker Url) (ps : List PassivePermit) (p : PassivePermit)
      (o : PassiveOutcome) (now : ℕ)
      → suc n < word
      → MapInv n t.next_address t.state_by_target ps
      → let after = (record_outcome t p o now).0 in
        MapInv (suc (suc n)) after.next_address after.state_by_target ps
  unfolding record_outcome
  record-MapInv n t ps p o now small v =
      let next = t.next_address in
      let m = t.state_by_target in
      let later = later-MapInv n (suc (suc n)) next next m ps (omega arith) (omega arith) v in
      elim (Option-cases (lookup p.key m)) [
        | inl e ↦ rw (e, record_outcome) later
        | inr (h, e) ↦
            let (b, at) =
              count_bounds t.failure_threshold t.ejection_duration h o now n (v.bounded p.key h e)
                small in
            elim (Bool-cases (not (h.generation == p.generation) || not (h.address == p.state))) [
              | inl other ↦ rw (e, other, record_outcome) later
              | inr same ↦
                  rw (e, same, record_outcome)
                    (insert-MapInv (suc (suc n)) next m ps p.key
                      (count_outcome t.failure_threshold t.ejection_duration h o now).0
                      (count-Older t.failure_threshold t.ejection_duration p.key h o now n ps
                        (v.bounded p.key h e) small (v.older p.key h e))
                      b (omega (arith, at, v.placed p.key h e)) later)
            ]
      ]

module _ {Url : Type 0} (url_string : Url → String) where
  pub healthy_loop-MapInv :
      (n next now : ℕ) (m : PassiveMap Url) (ps : List PassivePermit) (us : List Url)
      → n < word
      → MapInv n next m ps
      → MapInv n next (healthy_loop url_string now m us).0 ps
  unfolding healthy_loop
  healthy_loop-MapInv n next now m ps [] small v = v
  healthy_loop-MapInv n next now m ps (u ∷ us) small v =
      elim (Option-cases (lookup (url_string u) m)) [
        | inl e ↦ rw (e, healthy_loop) (healthy_loop-MapInv n next now m ps us small v)
        | inr (s, e) ↦
            let (b, at) = available_bounds s now n (v.bounded (url_string u) s e) small in
            rw (e, healthy_loop)
              (healthy_loop-MapInv n next now (insert (url_string u) (endpoint_available s now).0 m)
                ps us small
                (insert-MapInv n next m ps (url_string u) (endpoint_available s now).0
                  (available-Older (url_string u) s now n ps (v.bounded (url_string u) s e) small
                    (v.older (url_string u) s e))
                  b (omega (arith, at, v.placed (url_string u) s e)) v))
      ]

  pub replace_loop-MapInv :
      (n next a : ℕ) (old m : PassiveMap Url) (ps : List PassivePermit) (us : List Url)
      → next ≤ a
      → MapInv n next old ps
      → MapInv n a m ps
      → MapInv n (replace_loop url_string old m a us).1 (replace_loop url_string old m a us).0 ps
  unfolding replace_loop
  replace_loop-MapInv n next a old m ps [] le v w = w
  replace_loop-MapInv n next a old m ps (u ∷ us) le v w =
      let k = url_string u in
      elim (Option-cases (lookup k old)) [
        | inl e ↦
            rw (e, replace_loop)
              (replace_loop-MapInv n next (a + 1) old (insert k (fresh a u) m) ps us (omega arith) v
                (insert-MapInv n (a + 1) m ps k (fresh a u)
                  (fresh-Older k u next a ps le v.allocated) (omega arith) (omega arith)
                  (later-MapInv n n a (a + 1) m ps (omega arith) (omega arith) w)))
        | inr (s, e) ↦
            rw (e, replace_loop)
              (replace_loop-MapInv n next a old (insert k (record s { target = u }) m) ps us le v (
                insert-MapInv n a m ps k (record s { target = u })
                  (same-Older k u s ps (v.older k s e)) (v.bounded k s e)
                  (omega (arith, le, v.placed k s e)) w))
      ]

  pub fill-MapInv :
      (m : PassiveMap Url) (a : ℕ) (us : List Url)
      → MapInv 0 a m []
      → MapInv 0 (fill url_string m a us).1 (fill url_string m a us).0 []
  unfolding fill
  fill-MapInv m a [] v = v
  fill-MapInv m a (u ∷ us) v = elim (Option-cases (lookup (url_string u) m)) [
    | inl e ↦
        rw (e, fill)
          (fill-MapInv (insert (url_string u) (fresh a u) m) (a + 1) us (
            insert-MapInv 0 (a + 1) m [] (url_string u) (fresh a u) tt (omega arith) (omega arith)
              (later-MapInv 0 0 a (a + 1) m [] (omega arith) (omega arith) v)))
    | inr (h, e) ↦ rw (e, fill) (fill-MapInv m a us v)
  ]
