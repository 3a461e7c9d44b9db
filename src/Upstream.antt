-- ===== src/Upstream.antt =====
-- internal/upstream: the endpoints of a route, their health, and the choice of one for a request.
-- `url.URL` is a type `Url`, and its method `String`, by which the code tells endpoints apart, is
-- the parameter `url_string`.
pub mod Health
pub mod HealthTracker
pub mod LeastRequests
pub mod PassiveHealth
pub mod Picker
pub mod RoundRobin
pub mod Random
pub mod HealthAwarePicker
pub mod CompositeHealthSource
pub mod EndpointMembership
pub mod EndpointCoordinator
pub mod HealthChecker
