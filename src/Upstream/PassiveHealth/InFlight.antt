-- ===== src/Upstream/PassiveHealth/InFlight.antt =====
-- Histories of the passive health tracker of internal/upstream/passive_health_tracker.go, with requests in flight.
use dev_gate.Common.{
  ℕ, suc, ◌+◌, ◌<◌, ◌≡◌, refl, subst, String, inl, inr, List, [], ◌∷◌, Option, none, some, arith,
  word, ℤ, lookup, insert, length, get_elem?, erase_idx, Option-cases, Bool-cases, ok, reject_ok,
  ok_unique, lez, pos,
}
use dev_gate.Upstream.PassiveHealth.{
  PassiveHealthTracker, PassivePermit, PassiveOutcome, threshold_not_positive,
  duration_not_positive, endpoint_available, fill, new, healthy_loop, healthy_endpoints,
  replace_loop, replace, acquire_permit, record_outcome,
}
use dev_gate.Upstream.PassiveHealth.Permits.{
  MapInv, insert-MapInv, later-MapInv, available-Older, available_bounds, erase-MapInv,
}
use dev_gate.Upstream.PassiveHealth.Operations.{
  healthy_loop-MapInv, replace_loop-MapInv, issued-MapInv, record-MapInv, fill-MapInv, empty-MapInv,
  available_free, written,
}

-- The tracker and the permits of the requests in flight.
pub record System (Url : Type 0) : Type 0 where
  pub tracker : PassiveHealthTracker Url
  pub in_flight : List PassivePermit

pub data Op (Url : Type 0) : Type 0 where
  enter : Url → ℕ → Op Url
  finish : ℕ → PassiveOutcome → ℕ → Op Url
  check : ℕ → Op Url
  publish : List Url → Op Url

abbrev pub Inv : {Url : Type 0} → ℕ → System Url → Type 0
Inv n s = MapInv n s.tracker.next_address s.tracker.state_by_target s.in_flight

abbrev keep :
    {Url : Type 0}
    → List PassivePermit
    → PassiveHealthTracker Url × Option PassivePermit
    → System Url
keep ps (t, none) = record { tracker = t; in_flight = ps }
keep ps (t, some p) = record { tracker = t; in_flight = p ∷ ps }

module _ {Url : Type 0} (url_string : Url → String) where
  -- A request for an endpoint arrives, the request at a place of `in_flight` has its outcome recorded, the
  -- healthy endpoints are asked for, or the endpoints are replaced.
  unfoldable pub step : System Url → Op Url → System Url
  step s (enter u now) = keep s.in_flight (acquire_permit url_string s.tracker u now)
  step s (finish i outcome now) = elim (get_elem? s.in_flight i) [
    | none ↦ s
    | some p ↦ record {
      tracker = (record_outcome s.tracker p outcome now).0;
      in_flight = erase_idx s.in_flight i;
    }
  ]
  step s (check now) = record s { tracker = (healthy_endpoints url_string s.tracker now).0 }
  step s (publish us) = record s { tracker = replace url_string s.tracker us }

  unfoldable pub run : System Url → List (Op Url) → System Url
  unfolding step
  run s [] = s
  run s (o ∷ os) = run (step s o) os

  enter-Inv :
      (n : ℕ) (s : System Url) (u : Url) (now : ℕ)
      → n < word
      → Inv n s
      → Inv n (step s (enter u now))
  unfolding step acquire_permit
  enter-Inv n s u now small v =
      let k = url_string u in
      let next = s.tracker.next_address in
      let m = s.tracker.state_by_target in
      elim (Option-cases (lookup k m)) [
        | inl e ↦ rw (e, step, acquire_permit) v
        | inr (h, e) ↦
            let h' = (endpoint_available h now).0 in
            let (b, at) = available_bounds h now n (v.bounded k h e) small in
            let w =
              insert-MapInv n next m s.in_flight k h'
                (available-Older k h now n s.in_flight (v.bounded k h e) small (v.older k h e)) b
                (omega (arith, at, v.placed k h e)) v in
            elim (Bool-cases (endpoint_available h now).1) [
              | inl available ↦
                  rw (e, available, step, acquire_permit)
                    (issued-MapInv n next (insert k h' m) s.in_flight h'
                      (record { key = k; state = h'.address; generation = h'.generation })
                      (written k h' m) refl (available_free h now available)
                      (omega (arith, at, v.placed k h e)) w)
              | inr rejected ↦ rw (e, rejected, step, acquire_permit) w
            ]
      ]

  finish-Inv :
      (n : ℕ) (s : System Url) (i : ℕ) (o : PassiveOutcome) (now : ℕ)
      → suc n < word
      → Inv n s
      → Inv (suc (suc n)) (step s (finish i o now))
  unfolding step
  finish-Inv n s i o now small v =
      let next = s.tracker.next_address in
      let m = s.tracker.state_by_target in
      elim (Option-cases (get_elem? s.in_flight i)) [
        | inl e ↦
            rw (e, step)
              (later-MapInv n (suc (suc n)) next next m s.in_flight (omega arith) (omega arith) v)
        | inr (p, e) ↦
            let after = (record_outcome s.tracker p o now).0 in
            rw (e, step)
              (erase-MapInv (suc (suc n)) after.next_address after.state_by_target s.in_flight i
                (record-MapInv n s.tracker s.in_flight p o now small v))
      ]

  step-Inv :
      (n : ℕ) (s : System Url) (o : Op Url) → suc n < word → Inv n s → Inv (suc (suc n)) (step s o)
  unfolding step replace healthy_endpoints
  step-Inv n s (enter u now) small v =
      let t = step s (enter u now) in
      let next = t.tracker.next_address in
      later-MapInv n (suc (suc n)) next next t.tracker.state_by_target t.in_flight (omega arith)
        (omega arith) (enter-Inv n s u now (omega arith) v)
  step-Inv n s (finish i outcome now) small v = finish-Inv n s i outcome now small v
  step-Inv n s (check now) small v =
      let next = s.tracker.next_address in
      let m = s.tracker.state_by_target in
      later-MapInv n (suc (suc n)) next next (healthy_loop url_string now m s.tracker.ordered).0
        s.in_flight (omega arith) (omega arith)
        (healthy_loop-MapInv url_string n next now m s.in_flight s.tracker.ordered (omega arith) v)
  step-Inv n s (publish us) small v =
      let next = s.tracker.next_address in
      let m = s.tracker.state_by_target in
      let r = replace_loop url_string m [] next us in
      later-MapInv n (suc (suc n)) r.1 r.1 r.0 s.in_flight (omega arith) (omega arith) (
        replace_loop-MapInv url_string n next next m [] s.in_flight us (omega arith) v
          (empty-MapInv n next s.in_flight v.allocated))

  pub run-Inv :
      (n : ℕ) (s : System Url) (os : List (Op Url))
      → n + (length os + length os) < word
      → Inv n s
      → (m : ℕ) × Inv m (run s os)
  unfolding run
  run-Inv n s [] small v = (n, v)
  run-Inv n s (o ∷ os) small v =
      run-Inv (suc (suc n)) (step s o) os (omega (arith, small)) (step-Inv n s o (omega arith) v)

  pub new-Inv :
      (us : List Url) (threshold duration : ℤ) (t : PassiveHealthTracker Url)
      → new url_string us threshold duration ≡ ok t
      → Inv 0 (record { tracker = t; in_flight = [] })
  unfolding new
  new-Inv [] threshold duration t e = absurd (cc)
  new-Inv (u ∷ us) threshold duration t e =
      let m = fill url_string [] 0 (u ∷ us) in
      let one = reject_ok (lez threshold (pos 0)) threshold_not_positive _ t e in
      let two = reject_ok (lez duration (pos 0)) duration_not_positive _ t one.1 in
      subst (λ (x : PassiveHealthTracker Url). Inv 0 (record { tracker = x; in_flight = [] }))
        (ok_unique _ _ t refl two.1) (fill-MapInv url_string [] 0 (u ∷ us) (empty-MapInv 0 0 [] tt))
