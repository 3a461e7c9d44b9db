-- ===== src/Proxy/Retry/Delays.antt =====
-- The delays of internal/proxy/retry.go and the range of int64.
use dev_gate.Common.{
  ℕ, zero, suc, ◌+◌, ◌-◌, ◌*◌, ◌≤◌, ◌<◌, ◌≡◌, ◌≢◌, inl, inr, List, [], ◌∷◌, arith, pos, Bool-cases,
}
use dev_gate.Proxy.Retry.{
  RetryTransport, RetryRequest, Attempt, Script, panicked, Trip, should_retry, shifted, retry_delay,
  retry_loop, round_trip,
}

abbrev pub sum : List ℕ → ℕ
sum [] = 0
sum (d ∷ ds) = d + sum ds

-- The delay has no overflow below 2 ^ 63.
retry_delay_small :
    (base i : ℕ)
    → base * shifted i < 9223372036854775808
    → retry_delay base i ≡ pos (base * shifted i)
unfolding retry_delay
retry_delay_small base i small = ground arith

shift_suc : (base i : ℕ) → base * shifted (suc i) ≡ 2 * (base * shifted i)
unfolding shifted
shift_suc base i = grind arith

unshifted : (base : ℕ) → base * shifted 0 ≡ base
unfolding shifted
unshifted base = omega arith

shifted_pos : (i : ℕ) → 0 < shifted i
unfolding shifted
shifted_pos zero = omega arith
shifted_pos (suc i) = omega (arith, shifted_pos i)

delay_pos : (base i : ℕ) → 0 < base → 0 < base * shifted i
delay_pos base i some = grind (arith, shifted_pos i)

delay_grows : (base rounds i end : ℕ) → i + rounds ≡ end → base * shifted i ≤ base * shifted end
delay_grows base zero i end e = let same : i ≡ end = omega (arith, e) in rw same (omega arith)
delay_grows base (suc rounds) i end e =
    omega (arith, shift_suc base i, delay_grows base rounds (suc i) end (omega (arith, e)))

module _ {R : Type 0} (t : RetryTransport) (req : RetryRequest) (script : Script R)
    (drawn : (k n : ℕ) → 0 < n → script.draw k n < n) (base_pos : 0 < t.base_delay) where
  -- The bound on what is waited in a loop from one exponent to another.
  abbrev Bounded : ℕ → ℕ → List ℕ → Trip R → Type 0
  Bounded i end waited trip =
      (trip.reply ≢ panicked)
      × (sum trip.waited + t.base_delay * shifted i ≤ sum waited + t.base_delay * shifted end)

  loop-Bounded :
      (rounds i end calls : ℕ) (waited : List ℕ) (last : Attempt R)
      → i + rounds ≡ end
      → t.base_delay * shifted end ≤ 9223372036854775808
      → Bounded i end waited (retry_loop t req script rounds i calls waited last)
  unfolding retry_loop
  loop-Bounded zero i end calls waited last e small =
      (λ h. cc, omega (arith, delay_grows t.base_delay 0 i end e))
  loop-Bounded (suc rounds) i end calls waited last e small =
      let base = t.base_delay in
      let d = base * shifted i in
      let doubled = shift_suc base i in
      let some = delay_pos base i base_pos in
      let grown = delay_grows base rounds (suc i) end (omega (arith, e)) in
      let delay = script.draw calls d in
      let short = drawn calls d some in
      let next = script.attempt calls in
      let rest =
        loop-Bounded rounds (suc i) end (suc calls) (delay ∷ waited) next (omega (arith, e))
          small in
      rw (retry_delay_small base i (omega (arith, doubled, some, grown, small)), retry_loop)
        (ground (arith, doubled, some, grown, short, rest.0, rest.1))

  -- Where base delay times 2 to the number of retries is at most 2 ^ 63, no delay overflows: RoundTrip
  -- does not panic, and it waits in all for less than that product, by at least the base delay.
  pub round_trip_delays :
      t.base_delay * shifted (t.max_attempts - 1) ≤ 9223372036854775808
      → ((round_trip t req script).reply ≢ panicked)
        × (sum (round_trip t req script).waited + t.base_delay
            ≤ t.base_delay * shifted (t.max_attempts - 1))
  unfolding round_trip
  round_trip_delays small =
      let rounds = t.max_attempts - 1 in
      let first = script.attempt 0 in
      let rest = loop-Bounded rounds 0 rounds 1 [] first (omega arith) small in
      let one = unshifted t.base_delay in
      elim (Bool-cases (should_retry req first)) [
        | inl again ↦ rw (again, round_trip) (rest.0, omega (arith, one, rest.1))
        | inr done ↦
            rw (done, round_trip)
              (λ h. cc, omega (arith, one, delay_grows t.base_delay rounds 0 rounds (omega arith)))
      ]
