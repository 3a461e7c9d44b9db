-- ===== src/Proxy/Retry/Rounds.antt =====
-- The calls that RoundTrip of internal/proxy/retry.go makes.
use dev_gate.Common.{
  ℕ, zero, suc, ◌+◌, ◌-◌, ◌≤◌, ◌<◌, ◌≡◌, ◌⊎◌, refl, true, false, inl, inr, List, [], ◌∷◌, arith,
  lez, pos, pos_part, Bool-cases,
}
use dev_gate.Proxy.Retry.{
  RetryTransport, RetryRequest, Script, Reply, answered, wait_failed, panicked, Trip, should_retry,
  retry_delay, retry_loop, round_trip,
}

module _ {R : Type 0} (t : RetryTransport) (req : RetryRequest) (script : Script R) where
  -- The results of so many calls from one on were to be retried.
  abbrev pub Retried : ℕ → ℕ → Type 0
  Retried from zero = Unit
  Retried from (suc n) = (should_retry req (script.attempt from) ≡ true) × Retried (suc from) n

  -- What a reply is, when call `last` is the last one that is made and `end` calls are allowed.
  abbrev pub Concludes : ℕ → ℕ → Reply R → Type 0
  Concludes end last (answered a) =
      (a ≡ script.attempt last) × ((should_retry req a ≡ false) ⊎ (suc last ≡ end))
  Concludes end last wait_failed =
      (should_retry req (script.attempt last) ≡ true) × (script.interrupted (suc last) ≡ true)
  Concludes end last panicked = should_retry req (script.attempt last) ≡ true

  -- A trip from call `from` on, when `end` calls are allowed: all its calls but the last are retried.
  pub record IsSound (from end : ℕ) (trip : Trip R) : Type 0 where
    pub last : ℕ
    pub more : ℕ
    pub placed : last ≡ from + more
    pub counted : trip.calls ≡ suc last
    pub within : trip.calls ≤ end
    pub retried : Retried from more
    pub concludes : Concludes end last trip.reply

  loop-IsSound :
      (rounds i from end : ℕ) (waited : List ℕ)
      → should_retry req (script.attempt from) ≡ true
      → suc from + rounds ≡ end
      → IsSound from end (retry_loop t req script rounds i (suc from) waited (script.attempt from))
  unfolding retry_loop
  loop-IsSound zero i from end waited again e = record {
    last = from;
    more = 0;
    placed = omega arith;
    counted = refl;
    within = omega (arith, e);
    retried = tt;
    concludes = (refl, inr (omega (arith, e)));
  }
  loop-IsSound (suc rounds) i from end waited again e =
      let max_delay = retry_delay t.base_delay i in
      let delay = script.draw (suc from) (pos_part max_delay) in
      let next = script.attempt (suc from) in
      elim (Bool-cases (lez max_delay (pos 0))) [
        | inl bad ↦
            rw (bad, retry_loop)
              (record {
                last = from;
                more = 0;
                placed = omega arith;
                counted = refl;
                within = omega (arith, e);
                retried = tt;
                concludes = again;
              })
        | inr good ↦ elim (Bool-cases (script.interrupted (suc from))) [
          | inl stopped ↦
              rw (good, stopped, retry_loop)
                (record {
                  last = from;
                  more = 0;
                  placed = omega arith;
                  counted = refl;
                  within = omega (arith, e);
                  retried = tt;
                  concludes = (again, stopped);
                })
          | inr waiting ↦ elim (Bool-cases (should_retry req next)) [
            | inr done ↦
                rw (good, waiting, done, retry_loop)
                  (record {
                    last = suc from;
                    more = 1;
                    placed = omega arith;
                    counted = refl;
                    within = omega (arith, e);
                    retried = (again, tt);
                    concludes = (refl, inl done);
                  })
            | inl more ↦
                let s =
                  loop-IsSound rounds (suc i) (suc from) end (delay ∷ waited) more
                    (omega (arith, e)) in
                rw (good, waiting, more, retry_loop)
                  (record {
                    last = s.last;
                    more = suc s.more;
                    placed = omega (arith, s.placed);
                    counted = s.counted;
                    within = s.within;
                    retried = (again, s.retried);
                    concludes = s.concludes;
                  })
          ]
        ]
      ]

  -- With at least one attempt allowed, RoundTrip makes a call and at most that many. All but the last
  -- call have failed in a way that is to be retried. What it returns is the result of the last call,
  -- which is not to be retried unless no attempt is left, or else, after a last call that is to be
  -- retried, the error of a wait that the context has ended, or a panic.
  pub round_trip-IsSound : 0 < t.max_attempts → IsSound 0 t.max_attempts (round_trip t req script)
  unfolding round_trip
  round_trip-IsSound some_left = elim (Bool-cases (should_retry req (script.attempt 0))) [
    | inr done ↦
        rw (done, round_trip)
          (record {
            last = 0;
            more = 0;
            placed = refl;
            counted = refl;
            within = some_left;
            retried = tt;
            concludes = (refl, inl done);
          })
    | inl more ↦
        rw (more, round_trip)
          (loop-IsSound (t.max_attempts - 1) 0 0 t.max_attempts [] more (omega (arith, some_left)))
  ]
