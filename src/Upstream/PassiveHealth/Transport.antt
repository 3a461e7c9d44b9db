-- ===== src/Upstream/PassiveHealth/Transport.antt =====
-- internal/upstream/passive_health_transport.go.
use dev_gate.Common.{ℕ, String, Bool, false, ◌&&◌, Option, none, some, if◌then◌else◌, ltb, leb}
use dev_gate.Http.{Exchange}
use dev_gate.Upstream.PassiveHealth.{
  PassiveHealthTracker, PassivePermit, PassiveOutcome, ignored, failure, success, acquire_permit,
  record_outcome,
}

-- classifyPassiveHealthOutcome
unfoldable pub classify : Exchange → PassiveOutcome
classify x = if x.canceled then ignored else if x.error then failure else elim x.status_code [
  | none ↦ ignored
  | some code ↦ if leb 500 code && ltb code 600 then failure else success
]

-- What RoundTrip of PassiveHealthTransport returns.
pub data PassiveReply : Type 0 where
  target_missing no_healthy_endpoints : PassiveReply
  answered : Exchange → PassiveReply

module _ {Url : Type 0} (url_string : Url → String) where
  finish_trip :
      (Unit {0} → Exchange)
      → ℕ
      → PassiveHealthTracker Url × Option PassivePermit
      → PassiveHealthTracker Url × PassiveReply × Bool
  finish_trip base later (t, none) = (t, no_healthy_endpoints, false)
  finish_trip base later (t, some p) =
      let x = base tt in
      let (t', ejected) = record_outcome t p (classify x) later in (t', answered x, ejected)

  -- RoundTrip with no other call between; the target is the one in the request's context, and the
  -- last result is whether the observer was told of an ejection.
  unfoldable pub round_trip :
      PassiveHealthTracker Url
      → Option Url
      → ℕ
      → (Unit {0} → Exchange)
      → ℕ
      → PassiveHealthTracker Url × PassiveReply × Bool
  unfolding finish_trip
  round_trip t none now base later = (t, target_missing, false)
  round_trip t (some target) now base later =
      finish_trip base later (acquire_permit url_string t target now)
