-- ===== src/Gateway.antt =====
-- internal/gateway: the handler that dispatches a request to its route, with the writer that records
-- the response and the recovery from panics.
pub mod Writer
pub mod Handler
pub mod Answers
