-- ===== src/Proxy/ReverseProxy.antt =====
-- New of internal/proxy/proxy.go: what Rewrite and ModifyResponse make of a request and a response,
-- with internal/proxytarget/context.go, and handleProxyError. A value in a request's context is a
-- field, and logging is left out.
pub mod RequestIds
use dev_gate.Common.{ℕ, List, [], Option, none, some, Text, codes}
use dev_gate.Http.{Headers}
use dev_gate.Gateway.Writer.{Call}
use dev_gate.Proxy.Netip.{Netip}
use dev_gate.Proxy.TrustedProxies.{set_x_forwarded_for}
use dev_gate.Proxy.Releasing.{ProxyError, status_code_for_proxy_error}
use dev_gate.Middleware.RequestId.{header_name}

-- A request with what its context holds: the acquired target with its release function, the release
-- function alone, and the target of proxytarget. An `L` is a release function, and a `T` a trailer.
pub record ProxiedRequest (Url L T H : Type 0) : Type 0 where
  pub acquired : Option (Url × L)
  pub release : Option L
  pub target : Option Url
  pub url : Url
  pub remote_addr : Text
  pub trailer : T
  pub header : H

-- proxytarget.WithTarget and FromContext
unfoldable pub with_target :
    {Url L T H : Type 0} → ProxiedRequest Url L T H → Url → ProxiedRequest Url L T H
with_target q target = record q { target = some target }

unfoldable pub target_from_context : {Url L T H : Type 0} → ProxiedRequest Url L T H → Option Url
target_from_context q = q.target

abbrev pub transformed : {H : Type 0} → Option (H → H) → H → H
transformed none h = h
transformed (some transform) h = transform h

-- What New is given, with what httputil.ReverseProxy does: the header of the outbound request, from
-- which it has removed what is between the client and the gateway, and SetURL and SetXForwarded.
pub record ReverseProxy (Url H P : Type 0) : Type 0 where
  pub request_header_transform : Option (H → H)
  pub response_header_transform : Option (H → H)
  pub trusted_cidrs : List P
  pub outbound : H → H
  pub set_url : Url → Url → Url
  pub set_x_forwarded : H → H

module _ {H : Type 0} {lower : Text → Text} (headers : Headers lower H) where
  -- The header that setXForwardedFor sets or deletes.
  unfoldable pub write_x_forwarded_for : Option Text → H → H
  write_x_forwarded_for none h = headers.del h (codes "X-Forwarded-For")
  write_x_forwarded_for (some value) h = headers.set_header h (codes "X-Forwarded-For") value

  -- ModifyResponse, with the optional transform.
  unfoldable pub modify_response : Option (H → H) → H → H
  modify_response transform h = headers.del (transformed transform h) header_name

module _ {Url L T H A P : Type 0} {lower : Text → Text} (headers : Headers lower H)
    (net : Netip A P) (proxy : ReverseProxy Url H P) where
  -- Rewrite, from the inbound request and the outbound one; `none` is a panic of the type assertion.
  unfoldable pub rewrite :
      ProxiedRequest Url L T H → ProxiedRequest Url L T H → Option (ProxiedRequest Url L T H)
  unfolding with_target write_x_forwarded_for
  rewrite inbound out = elim inbound.acquired [
    | none ↦ none
    | some (target, release) ↦
        let q = with_target (record out { release = some release }) target in
        let header = proxy.set_x_forwarded (transformed proxy.request_header_transform q.header) in
        some (record q {
          url = proxy.set_url q.url target;
          trailer = inbound.trailer;
          header =
              write_x_forwarded_for headers
                (set_x_forwarded_for net proxy.trusted_cidrs inbound.remote_addr
                  (headers.values inbound.header (codes "X-Forwarded-For")))
                header;
        })
  ]

-- handleProxyError: what the responder, or `http.Error`, writes.
unfoldable pub handle_proxy_error : (ℕ → List Call) → ProxyError → List Call
unfolding status_code_for_proxy_error
handle_proxy_error error_response e = error_response (status_code_for_proxy_error e)
