-- ===== src/Middleware.antt =====
-- The handlers around a route: internal/errorresponse, internal/requestbodylimit,
-- internal/requesttimeout, internal/directresponse, internal/redirect and internal/ratelimit.
pub mod ErrorResponse
pub mod Limits
pub mod RequestId
pub mod Responses
