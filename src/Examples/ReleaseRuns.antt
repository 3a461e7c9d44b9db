-- ===== src/Examples/ReleaseRuns.antt =====
-- internal/proxy with the least-requests picker, on one request.
use dev_gate.Common.{◌+◌, ◌≡◌, refl, String, false, [], ◌∷◌, some, arith}
use dev_gate.Upstream.LeastRequests.{LeastRequests, active, acquire, scan, take_permit}
use dev_gate.Proxy.Releasing.{sent, duplex_body, serve_http}
use dev_gate.Proxy.Releasing.Counts.{give_back, serve_http-active}

abbrev busy : LeastRequests String
busy = record {
  memory = λ a. record { target = "a"; active_requests = a + 3 };
  next = 2;
  endpoints = 0 ∷ 1 ∷ [];
  cursor = 0;
}

abbrev taken : LeastRequests String
taken = (take_permit busy 0).0

busy-taken : acquire busy ≡ some (taken, "a", record { selected = 0; released = false })
unfolding acquire scan take_permit
busy-taken = refl

serve_http-active_example :
    active
      (serve_http give_back
        (taken, record { selected = 0; released = false })
        (sent duplex_body 2)).0.memory
      0
    ≡ active busy.memory 0
serve_http-active_example =
    serve_http-active busy taken "a" (record { selected = 0; released = false })
      (sent duplex_body 2) 0 busy-taken (omega arith)
