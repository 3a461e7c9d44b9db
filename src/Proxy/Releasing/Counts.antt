-- ===== src/Proxy/Releasing/Counts.antt =====
-- A proxied request of internal/proxy and the counts of internal/upstream/least_requests.go.
use dev_gate.Common.{ℕ, ◌≡◌, true, arith, word, ◌<◌, some}
use dev_gate.Proxy.Releasing.{Proxying, serve_http, serve_http_lem}
use dev_gate.Upstream.LeastRequests.{LeastRequests, Release, active, acquire, take_permit, release}
use dev_gate.Upstream.LeastRequests.Permits.{release_done}

module _ {Url : Type 0} where
  -- The picker and the release function of one request, after a call of that function.
  abbrev pub give_back : LeastRequests Url × Release → LeastRequests Url × Release
  give_back (l, r) = release l r

  release_released : (l : LeastRequests Url) (r : Release) → (release l r).1.released ≡ true
  unfolding release
  release_released l r = ground arith

  give_back_twice : (s : LeastRequests Url × Release) → give_back (give_back s) ≡ give_back s
  give_back_twice (l, r) = release_done (release l r).0 (release l r).1 (release_released l r)

  -- Whatever the reverse proxy does with a request that takes an endpoint of the least-requests
  -- picker, when it has been served each endpoint has the active requests that it had before, if
  -- these are numbers of 64 bits.
  pub serve_http-active :
      (l l' : LeastRequests Url) (u : Url) (r : Release) (p : Proxying) (a : ℕ)
      → acquire l ≡ some (l', u, r)
      → active l.memory a < word
      → active (serve_http give_back (l', r) p).0.memory a ≡ active l.memory a
  unfolding acquire take_permit release
  serve_http-active l l' u r p a e small =
      rw (serve_http_lem give_back give_back_twice (l', r) p) (ground (arith, e, small))
