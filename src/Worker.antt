-- ===== src/Worker.antt =====
-- internal/worker/runner.go: the circuit breaker, the pace of the loop, and the loop itself.
pub mod Discovery
pub mod Breaker
pub mod Backpressure
pub mod Runner
pub mod Stale
pub mod Tasks
pub mod Fetcher
pub mod Ingester
pub mod Parser
