-- ===== src/Proxy/Retry.antt =====
-- internal/proxy/retry.go. What the request's context, the base transport, the random numbers and the
-- timer do in the rounds of one call is a `Script`; a `time.Duration` is an int64.
pub mod Rounds
pub mod Delays
use dev_gate.Common.{
  ℕ, zero, suc, ◌+◌, ◌-◌, ◌*◌, ◌%◌, Bool, true, false, not, ◌&&◌, ◌||◌, List, [], ◌∷◌, Option, none,
  some, if◌then◌else◌, ltb, ℤ, pos, negsuc, pos_part, lez, ltz, word, Text, codes, text_eq, Result,
  err, ok, ◌>>◌, reject,
}

pub record RetryTransport : Type 0 where
  pub base_delay : ℕ  -- int64, not 0
  pub max_attempts : ℕ

-- `no_body` is `req.Body == nil || req.Body == http.NoBody`.
pub record RetryRequest : Type 0 where
  pub method : Text
  pub no_body : Bool

-- The result of one call of the base transport, and `req.Context().Err() != nil` after it.
pub record Attempt (R : Type 0) : Type 0 where
  pub response : R
  pub failed : Bool
  pub canceled : Bool

-- What the world does, by the number of calls made: the call's result, what rand.Int64N(n) draws
-- before the next one, and whether the context ends the wait for it.
pub record Script (R : Type 0) : Type 0 where
  pub attempt : ℕ → Attempt R
  pub draw : ℕ → ℕ → ℕ
  pub interrupted : ℕ → Bool

pub data RetryError : Type 0 where
  max_attempts_not_positive base_delay_not_positive : RetryError

-- `panicked` is that of rand.Int64N at a bound that is not positive.
pub data Reply (R : Type 0) : Type 0 where
  answered : Attempt R → Reply R
  wait_failed panicked : Reply R

-- What RoundTrip returns, the calls of the base transport, and the delays waited, the last first.
pub record Trip (R : Type 0) : Type 0 where
  pub reply : Reply R
  pub calls : ℕ
  pub waited : List ℕ

unfoldable pub new : ℤ → ℤ → Result RetryError RetryTransport
new max_attempts base_delay = do
  reject (ltz max_attempts (pos 1)) max_attempts_not_positive
  reject (lez base_delay (pos 0)) base_delay_not_positive
  ok (record { base_delay = pos_part base_delay; max_attempts = pos_part max_attempts })

module _ {R : Type 0} where
  unfoldable pub should_retry : RetryRequest → Attempt R → Bool
  should_retry req a =
      if not a.failed
      then false
      else if a.canceled
      then false
      else if not (text_eq req.method (codes "GET")) && not (text_eq req.method (codes "HEAD"))
      then false
      else req.no_body

-- The number that 64 bits stand for.
abbrev pub int64 : ℕ → ℤ
int64 n = if ltb n 9223372036854775808 then pos n else negsuc (word - 1 - n)

-- `1 << i`
unfoldable pub shifted : ℕ → ℕ
shifted zero = 1
shifted (suc i) = 2 * shifted i

-- retryDelay, with the wrap-around of its product.
unfoldable pub retry_delay : ℕ → ℕ → ℤ
unfolding shifted
retry_delay base_delay i = int64 (base_delay * shifted i % word)

module _ {R : Type 0} (t : RetryTransport) (req : RetryRequest) (script : Script R) where
  -- The loop of RoundTrip, by the rounds left and `retryIndex`; `calls` calls have been made, the
  -- last with the result `last`, which is to be retried.
  unfoldable pub retry_loop : ℕ → ℕ → ℕ → List ℕ → Attempt R → Trip R
  unfolding should_retry
  retry_loop zero i calls waited last = record {
    reply = answered last;
    calls = calls;
    waited = waited;
  }
  retry_loop (suc rounds) i calls waited last =
      let max_delay = retry_delay t.base_delay i in
      let delay = script.draw calls (pos_part max_delay) in
      let next = script.attempt calls in
      let stop : Trip R = record {
        reply = answered next;
        calls = suc calls;
        waited = delay ∷ waited;
      } in
      let further = retry_loop rounds (suc i) (suc calls) (delay ∷ waited) next in
      if lez max_delay (pos 0)
      then record { reply = panicked; calls = calls; waited = waited }
      else if script.interrupted calls
      then record { reply = wait_failed; calls = calls; waited = delay ∷ waited }
      else if not (should_retry req next)
      then stop
      else further

  unfoldable pub round_trip : Trip R
  round_trip =
      let first = script.attempt 0 in
      if should_retry req first
      then retry_loop (t.max_attempts - 1) 0 1 [] first
      else record { reply = answered first; calls = 1; waited = [] }
