-- ===== src/Quota.antt =====
-- What a subscription allows: internal/tiers, internal/request_tracking and internal/errors/ratelimit.go. `Tiers`
-- has the plans, `Usage` the request log and its sums, `Middleware` the check of a request;
-- `Reset` has the times at which the quotas start anew. `Admission`, `Honesty`, `Overshoot` and `Calendar`
-- have what is proved of them.
pub mod Tiers
pub mod Usage
pub mod Middleware
pub mod Admission
pub mod Honesty
pub mod Overshoot
pub mod Reset
pub mod Calendar
mod Tests
