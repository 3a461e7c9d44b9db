-- ===== src/Middleware/Limits.antt =====
-- internal/requestbodylimit/middleware.go, internal/requesttimeout/middleware.go and
-- internal/ratelimit. The next handler and the error responder are what they answer, an `A`.
use dev_gate.Common.{Bool, not, if◌then◌else◌, ℤ, pos, lez, ltz, Result, ok, ◌>>◌, reject}
use dev_gate.Router.Std.{Float}

pub data LimitError : Type 0 where
  next_nil max_bytes_not_positive : LimitError

-- New of requestbodylimit: the limit that the handler has.
unfoldable pub new_body_limit : (no_next : Bool) → ℤ → Result LimitError ℤ
new_body_limit no_next max_bytes = do
  reject no_next next_nil
  reject (lez max_bytes (pos 0)) max_bytes_not_positive
  ok max_bytes

-- The handler: `next` is given the limit of http.MaxBytesReader.
unfoldable pub serve_limited : {A : Type 0} → ℤ → (ℤ → A) → (ℤ → A) → (content_length : ℤ) → A
serve_limited max_bytes next respond content_length =
    if ltz max_bytes content_length then respond (pos 413) else next max_bytes

pub data TimeoutError : Type 0 where
  next_nil timeout_not_positive : TimeoutError

-- New of requesttimeout: the timeout of the context that the next handler is given.
unfoldable pub new_timeout : (no_next : Bool) → ℤ → Result TimeoutError ℤ
new_timeout no_next timeout = do
  reject no_next next_nil
  reject (lez timeout (pos 0)) timeout_not_positive
  ok timeout

pub data RateError : Type 0 where
  rate_not_positive rate_not_finite burst_not_positive : RateError

-- The arguments of `rate.NewLimiter`.
pub record Local : Type 0 where
  pub limit : Float
  pub burst : ℤ

unfoldable pub new_local : Float → ℤ → Result RateError Local
new_local requests_per_second burst = do
  reject (not requests_per_second.positive) rate_not_positive
  reject (not requests_per_second.finite) rate_not_finite
  reject (lez burst (pos 0)) burst_not_positive
  ok (record { limit = requests_per_second; burst = burst })

pub data Decision : Type 0 where
  allowed_request rejected_request : Decision

-- Middleware: what is recorded, and the answer, by what Allow returns.
unfoldable pub rate_limited : {A : Type 0} → (allowed : Bool) → A → (ℤ → A) → Decision × A
rate_limited allowed next respond =
    if not allowed then (rejected_request, respond (pos 429)) else (allowed_request, next)
