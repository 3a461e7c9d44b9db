-- ===== src/Metrics/Traffic/Requests.antt =====
-- What internal/metrics/metrics.go shows of the requests that ServeHTTP of
-- internal/gateway/handler.go starts and finishes.
use text.Mathlib.Text.{◌==◌ as str_eq}
use dev_gate.Common.{
  ℕ, suc, ◌≤◌, ◌<◌, ◌≡◌, ◌&&◌, List, [], ◌∷◌, String, if◌then◌else◌, arith, length,
}
use dev_gate.Metrics.Prometheus.{Labels, Opts, Vectors, labels_eq, exact}
use dev_gate.Metrics.Traffic.{Http, request_started, request_finished}

-- The two calls, the second with the route's name, the text of the status and the duration.
pub data RequestEvent : Type 0 where
  started : RequestEvent
  finished : String → String → ℕ → RequestEvent

-- Calls of any requests, the latest first, of which a number is still in flight.
pub data InFlight : ℕ → List RequestEvent → Type 0 where
  idle : InFlight 0 []
  arrival : {n : ℕ} {es : List RequestEvent} → InFlight n es → InFlight (suc n) (started ∷ es)
  completion :
      {n : ℕ} {es : List RequestEvent} (route status : String) (duration : ℕ)
      → InFlight (suc n) es
      → InFlight n (finished route status duration ∷ es)

-- The finished requests of a route, with a status and with any.
unfoldable pub finished_with : String → String → List RequestEvent → ℕ
finished_with route status [] = 0
finished_with route status (started ∷ es) = finished_with route status es
finished_with route status (finished r s duration ∷ es) =
    if str_eq r route && str_eq s status
    then suc (finished_with route status es)
    else finished_with route status es

unfoldable pub finished_at : String → List RequestEvent → ℕ
finished_at route [] = 0
finished_at route (started ∷ es) = finished_at route es
finished_at route (finished r s duration ∷ es) =
    if str_eq r route then suc (finished_at route es) else finished_at route es

finished_with-le :
    (route status : String) (es : List RequestEvent) → finished_with route status es ≤ length es
unfolding finished_with
finished_with-le route status [] = omega arith
finished_with-le route status (started ∷ es) = omega (arith, finished_with-le route status es)
finished_with-le route status (finished r s duration ∷ es) =
    ground (arith, finished_with-le route status es)

finished_at-le : (route : String) (es : List RequestEvent) → finished_at route es ≤ length es
unfolding finished_at
finished_at-le route [] = omega arith
finished_at-le route (started ∷ es) = omega (arith, finished_at-le route es)
finished_at-le route (finished r s duration ∷ es) = ground (arith, finished_at-le route es)

InFlight-le : {n : ℕ} {es : List RequestEvent} → InFlight n es → n ≤ length es
InFlight-le idle = omega arith
InFlight-le (arrival f) = omega (arith, InFlight-le f)
InFlight-le (completion route status duration f) = omega (arith, InFlight-le f)

module _ {V : Type 0} (vs : Vectors V) where
  unfoldable pub requests : Http V → List RequestEvent → Http V
  unfolding request_started request_finished
  requests m [] = m
  requests m (started ∷ es) = request_started vs (requests m es)
  requests m (finished route status duration ∷ es) =
      request_finished vs (requests m es) route status duration

  gauge-requests :
      {n : ℕ} {es : List RequestEvent} (m : Http V)
      → InFlight n es
      → vs.value m.requests_in_flight [] ≡ 0
      → length es < exact
      → vs.value (requests m es).requests_in_flight [] ≡ n
  unfolding requests labels_eq
  gauge-requests m idle e small = e
  gauge-requests {es = started ∷ es} m (arrival f) e small = ground (
    arith,
    gauge-requests m f e (omega arith),
    InFlight-le f,
    vs.value-inc (requests m es).requests_in_flight [] [],
  )
  gauge-requests {n} {es = finished r s d ∷ es} m (completion route status duration f) e small =
      ground (
        arith,
        gauge-requests m f e (omega arith),
        InFlight-le f,
        vs.value-dec (requests m es).requests_in_flight [] [] n,
      )

  total-requests :
      (m : Http V) (es : List RequestEvent) (route status : String)
      → ((l : Labels) → vs.value m.requests_total l ≡ 0)
      → length es < exact
      → vs.value (requests m es).requests_total (route ∷ status ∷ [])
        ≡ finished_with route status es
  unfolding requests labels_eq finished_with
  total-requests m [] route status zeros small = zeros _
  total-requests m (started ∷ es) route status zeros small =
      total-requests m es route status zeros (omega arith)
  total-requests m (finished r s duration ∷ es) route status zeros small = ground (
    arith,
    total-requests m es route status zeros (omega arith),
    total-requests m es r s zeros (omega arith),
    finished_with-le r s es,
    vs.value-inc (requests m es).requests_total (r ∷ s ∷ []) (route ∷ status ∷ []),
  )

  duration-requests :
      (m : Http V) (es : List RequestEvent) (route : String)
      → ((l : Labels) → vs.value m.request_duration l ≡ 0)
      → length es < exact
      → vs.value (requests m es).request_duration (route ∷ []) ≡ finished_at route es
  unfolding requests labels_eq finished_at
  duration-requests m [] route zeros small = zeros _
  duration-requests m (started ∷ es) route zeros small =
      duration-requests m es route zeros (omega arith)
  duration-requests m (finished r s duration ∷ es) route zeros small = ground (
    arith,
    duration-requests m es route zeros (omega arith),
    duration-requests m es r zeros (omega arith),
    finished_at-le r es,
    vs.value-observe (requests m es).request_duration (r ∷ []) (route ∷ []) duration,
  )

  abbrev pub fresh_http : Opts → Opts → Opts → Http V
  fresh_http o p q = record {
    requests_total = vs.fresh o;
    request_duration = vs.fresh p;
    requests_in_flight = vs.fresh q;
  }

  -- Through any interleaving of starting and finishing requests, of fewer calls than a `float64` is
  -- exact for, the gauge is the number of requests in flight, so 0 when all have finished; each
  -- counter is the number of finished requests with its route and status, and the histogram of a
  -- route has observed as many durations as requests of that route have finished.
  pub requests_lem :
      {n : ℕ} (o p q : Opts) (es : List RequestEvent) (route status : String)
      → InFlight n es
      → length es < exact
      → (vs.value (requests (fresh_http o p q) es).requests_in_flight [] ≡ n)
        × (vs.value (requests (fresh_http o p q) es).requests_total (route ∷ status ∷ [])
            ≡ finished_with route status es)
        × (vs.value (requests (fresh_http o p q) es).request_duration (route ∷ [])
            ≡ finished_at route es)
  requests_lem o p q es route status f small = (
    gauge-requests (fresh_http o p q) f (vs.value-fresh q []) small,
    total-requests (fresh_http o p q) es route status (vs.value-fresh o) small,
    duration-requests (fresh_http o p q) es route (vs.value-fresh p) small,
  )
