-- ===== src/Router.antt =====
-- internal/router: the configured routes and the choice of one for a request. `Std` is what the code
-- asks of the standard library and of golang.org/x/net on texts, and the three records below it are
-- what it reads of a `url.URL`, a `float64` and an `http.Header`.
pub mod Std
pub mod Route
pub mod Hostname
pub mod Validation
pub mod Matching
pub mod Construction
pub mod Selection
pub mod Overlap
pub mod Acceptance
pub mod Determinism
pub mod Allowed
