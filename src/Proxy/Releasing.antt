-- ===== src/Proxy/Releasing.antt =====
-- internal/proxy/releasing_transport.go, and the part of internal/proxy/proxy.go that takes an
-- upstream for a request, gives it back, and chooses the status of a failure. `release` is the
-- function that the picker returned, on a state `S`.
pub mod Counts
use dev_gate.Common.{
  ℕ, zero, suc, ◌+◌, ◌<◌, ◌≡◌, refl, ap, sym, ◌∙◌, Bool, true, false, ◌||◌, List, [], ◌∷◌, Option,
  none, some, arith, if◌then◌else◌, inl, inr,
}

-- What the next transport returns: an error, a response without a body, with a body that is an
-- io.ReadWriteCloser, or with one that can only be read.
pub data Received : Type 0 where
  failed no_body duplex_body read_body : Received

-- The wrapper of a response's body; `done` is its sync.Once.
pub data ReleasingBody : Type 0 where
  releasing_read_write_body releasing_body : (done : Bool) → ReleasingBody

-- What the error of a failed request is, by errors.Is and errors.As; `timeout` is that of a
-- timeoutReporter, if there is one.
pub record ProxyError : Type 0 where
  pub is_circuit_open : Bool
  pub is_no_available_upstream : Bool
  pub as_max_bytes : Bool
  pub as_timeout : Option Bool

unfoldable pub status_code_for_proxy_error : ProxyError → ℕ
status_code_for_proxy_error e =
    if e.is_circuit_open || e.is_no_available_upstream
    then 503
    else if e.as_max_bytes
    then 413
    else elim e.as_timeout [ none ↦ 502 | some timeout ↦ if timeout then 504 else 502 ]

-- What httputil.ReverseProxy does with a request: it may stop before it calls the transport, and it
-- closes the body of a response any number of times, also when it panics.
pub data Proxying : Type 0 where
  not_sent : Proxying
  sent : Received → (closes : ℕ) → Proxying

module _ {S : Type 0} (release : S → S) where
  -- RoundTrip of releasingTransport.
  unfoldable pub round_trip : S → Received → S × Option ReleasingBody
  round_trip s failed = (release s, none)
  round_trip s no_body = (release s, none)
  round_trip s duplex_body = (s, some (releasing_read_write_body false))
  round_trip s read_body = (s, some (releasing_body false))

  -- Close of the two wrappers.
  unfoldable pub close : S → ReleasingBody → S × ReleasingBody
  close s (releasing_read_write_body true) = (s, releasing_read_write_body true)
  close s (releasing_read_write_body false) = (release s, releasing_read_write_body true)
  close s (releasing_body true) = (s, releasing_body true)
  close s (releasing_body false) = (release s, releasing_body true)

  unfoldable pub closes : ℕ → S → ReleasingBody → S
  unfolding close
  closes zero s b = s
  closes (suc n) s b = let (s', b') = close s b in closes n s' b'

  unfoldable pub proxied : S → Proxying → S
  unfolding round_trip closes
  proxied s not_sent = s
  proxied s (sent received n) =
      let (s', body) = round_trip s received in elim body [ none ↦ s' | some b ↦ closes n s' b ]

  -- ServeHTTP of Handler after Acquire: the reverse proxy, and the deferred release.
  unfoldable pub serve_http : S → Proxying → S
  serve_http s p = release (proxied s p)

  -- A wrapper that is closed has released once, however often it is closed.
  abbrev is_done : ReleasingBody → Bool
  is_done (releasing_read_write_body done) = done
  is_done (releasing_body done) = done

  closes_done : (n : ℕ) (s : S) (b : ReleasingBody) → is_done b ≡ true → closes n s b ≡ s
  unfolding closes close
  closes_done zero s b e = refl
  closes_done (suc n) s (releasing_read_write_body true) e =
      closes_done n s (releasing_read_write_body true) refl
  closes_done (suc n) s (releasing_body true) e = closes_done n s (releasing_body true) refl
  closes_done (suc n) s (releasing_read_write_body false) e = absurd (cc)
  closes_done (suc n) s (releasing_body false) e = absurd (cc)

  -- The transport of a request releases its upstream once if it is called at all and, where there is
  -- a body to close, the body is closed; it has not released it before that.
  pub proxied_lem :
      (s : S) (received : Received) (n : ℕ)
      → proxied s (sent received n) ≡ (elim received [
        | failed ↦ release s
        | no_body ↦ release s
        | duplex_body ↦ if (elim n [ zero ↦ true | suc _ ↦ false ]) then s else release s
        | read_body ↦ if (elim n [ zero ↦ true | suc _ ↦ false ]) then s else release s
      ])
  unfolding proxied round_trip closes close
  proxied_lem s failed n = refl
  proxied_lem s no_body n = refl
  proxied_lem s duplex_body zero = refl
  proxied_lem s duplex_body (suc n) =
      closes_done n (release s) (releasing_read_write_body true) refl
  proxied_lem s read_body zero = refl
  proxied_lem s read_body (suc n) = closes_done n (release s) (releasing_body true) refl

  -- If a second release changes nothing, a request gives its upstream back just once, whatever the
  -- reverse proxy does with it: whether it is sent, fails or is answered, and however often the body
  -- is closed.
  pub serve_http_lem :
      ((s : S) → release (release s) ≡ release s)
      → (s : S) (p : Proxying) → serve_http s p ≡ release s
  unfolding serve_http proxied
  serve_http_lem idem s not_sent = refl
  serve_http_lem idem s (sent failed n) = ap release (proxied_lem s failed n) ∙ idem s
  serve_http_lem idem s (sent no_body n) = ap release (proxied_lem s no_body n) ∙ idem s
  serve_http_lem idem s (sent duplex_body zero) = ap release (proxied_lem s duplex_body 0)
  serve_http_lem idem s (sent duplex_body (suc n)) =
      ap release (proxied_lem s duplex_body (suc n)) ∙ idem s
  serve_http_lem idem s (sent read_body zero) = ap release (proxied_lem s read_body 0)
  serve_http_lem idem s (sent read_body (suc n)) =
      ap release (proxied_lem s read_body (suc n)) ∙ idem s
