-- ===== src/Lib.antt =====
-- DevGate is an API gateway: a request is matched with a configured route (internal/router), passes
-- the middlewares of that route, and is proxied to an endpoint that a load balancer chooses among the
-- healthy endpoints of the route (internal/upstream), through transports that retry, observe the
-- outcome and break the circuit (internal/proxy).
--
-- Which file models what:
-- Router models internal/router: Route the configuration, Validation and Hostname the checks of
--   Route.validate in their order, Matching the tests and the loop of Match, Construction New,
--   Allowed the method AllowedMethods. Selection, Overlap, Acceptance and Determinism hold the proofs.
-- Proxy.CircuitBreaker models internal/proxy/circuit_breaker.go. The fields of the receiver are a
--   record, and acquirePermit, recordOutcome and RoundTrip are acquire_permit, record_outcome and
--   round_trip. Calls interleaves the critical sections of concurrent calls; Transitions and Trips
--   hold further proofs.
-- Upstream.Health and Upstream.HealthTracker model internal/upstream/health.go and health_tracker.go.
-- Upstream.LeastRequests models internal/upstream/least_requests.go over an explicit memory, since
--   release functions and pickers share endpoints by pointers. Selection is about the choice, Permits,
--   Replacement and Balance about the counts; Served makes it a picker of Upstream.Picker.
-- Upstream.PassiveHealth models internal/upstream/passive_health_tracker.go and
--   passive_health_transport.go (Transport). Permits, Operations and InFlight hold the invariant of a
--   tracker with requests in flight and its histories, Stale what follows for outcomes that come
--   late, Ejection and Recovery what opens and ends an ejection.
-- Upstream.Picker is what health_aware_picker.go asks of a picker, as a record with laws;
--   Upstream.RoundRobin and Upstream.Random model round_robin.go and random.go and fill it in, and
--   Upstream.HealthAwarePicker is over any picker that does. Upstream.EndpointMembership and
--   Upstream.CompositeHealthSource model endpoint_membership.go and composite_health_source.go.
-- Upstream.EndpointCoordinator models endpoint_coordinator.go, with the sources that
--   newRouteHealthAwarePicker of cmd/devgate/handlers.go gives the picker; Reading, Publication and
--   Refreshed compose the laws of the trackers, the composite source and the picker.
-- Proxy.TrustedProxies models internal/proxy/trusted_proxies.go over Proxy.Netip, the addresses of
--   net/netip as a record with laws. Sanitize is about the hops that are passed on, Header about the
--   header that is sent, RoundTrip about reading what was written.
-- Proxy.Retry models internal/proxy/retry.go: a Script is what the base transport, the random numbers
--   and the context do in a call. Rounds is about the attempts, Delays about the waits.
-- Proxy.Releasing models internal/proxy/releasing_transport.go and ServeHTTP and
--   statusCodeForProxyError of internal/proxy/proxy.go; Counts composes it with the least-requests
--   picker. Proxy.ReverseProxy models Rewrite, ModifyResponse and the error handler that New of
--   proxy.go gives to httputil.ReverseProxy, with internal/proxytarget, and Proxy.Transport
--   transport.go.
-- Config.Route and Config.Conversion model internal/config/route.go and cmd/devgate/routes.go, and
--   Config.Settings models config.go, file.go and decode.go of internal/config. Converted is about the
--   upstreams that conversion gives, Started about the constructors that accepted settings pass.
-- Discovery models internal/discovery: Dns dns.go, and Watcher dns_watcher.go over any applier;
--   Published composes the watcher with the coordinator.
-- Middleware models internal/errorresponse, internal/requestbodylimit, internal/requesttimeout,
--   internal/ratelimit, internal/directresponse and internal/redirect; Middleware.RequestId models
--   internal/requestid, over a reader of random bytes, and Proxy.ReverseProxy.RequestIds follows an
--   identifier through both.
-- Metrics models internal/metrics: Prometheus is what it uses of the client library, vectors of
--   counters, gauges and histograms and a registry, as records with laws, where a value is exact up to
--   2 ^ 53 as in a float64. Breaker, Health and Traffic model the collectors with their observers, and
--   Registration their constructors as run of cmd/devgate/main.go calls them. Shown, Requests and
--   Resolved relate what is exported to the state of the components.
-- Upstream.HealthChecker models internal/upstream/health_checker.go: a round is a sequence of moves of
--   its workers, which take jobs and end checks in any order, and of replacements of the endpoints in
--   between. Counting and Rounds are about single moves, Recorded and Targets about the results.
-- Command.Assembly models what routeRuntimeFromRoutes of cmd/devgate/handlers.go does for a route, with
--   the three pickers of Command.Picking as one, Command.Runtime its loop and the background runners,
--   and Command.Responder error_responses.go; Command.Accepted composes the assembly with the
--   validation of internal/router.
-- Command.PassiveObserver models cmd/devgate/passive_health_observer.go: WakeUps interleaves its Run,
--   RecordEjection, requests and publications as steps on what they share, Ends is about the ends of
--   ejections, Recorded about what is published.
-- Command.HealthObserver models health_check_observer.go, and Published composes it with the coordinator.
-- Command.Process models main.go, logger.go and tls.go of cmd/devgate; Reached composes run with the
--   validation of the settings.
-- Gateway models internal/gateway: Writer response_writer.go, Handler handler.go and recovery.go on the
--   one header map that handlers and the error responder of internal/errorresponse share; Answers
--   composes them with the router.
-- Common holds the helpers; Http what the transports see of an exchange; Examples the tests and the
--   instances of the theorems.
--
-- How the code is read: a method that changes its receiver returns the new record; what a mutex
-- guards is one step; each reading of a clock is an argument; an error or a panic is a value. A uint64
-- wraps at 2 ^ 64, and the theorems over histories bound their length by that, which no process
-- reaches. Functions of other packages are parameters: Router.Std lists those of internal/router, and
-- url_string is the method String of a url.URL. No loop needs fuel: each runs over a list or a counted
-- number of rounds.
--
-- Not modelled: what http.ServeMux does with its patterns, signals, and main of cmd/devgate, which
-- reads the environment and logs; httputil.ReverseProxy, net/http and the Prometheus client library,
-- which are parameters where the code relies on them; the timers of loops; logging, with the observer
-- of dns_refresh_observer.go, which only logs and passes on; and the checks for nil of constructors
-- whose arguments are interfaces or pointers, but for those that a model names.
pub mod Common
pub mod Http
pub mod Proxy
pub mod Upstream
pub mod Router
pub mod Gateway
pub mod Config
pub mod Discovery
pub mod Middleware
pub mod Metrics
pub mod Command
mod Examples
