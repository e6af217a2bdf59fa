-- ===== src/Dispatch.antt =====
-- dispatch.go: what uploads a batch of files to each endpoint. The definitions stand in `Effects`
-- (the interfaces and the log), `Worker` (one endpoint's worker), `Probe` (the dry run) and
-- `Fan` (all endpoints at once); the other modules hold proofs.
pub mod Effects
pub mod Worker
pub mod Loops
pub mod Probe
pub mod Fan
pub mod Session
pub mod DryRun
pub mod Stream
pub mod Tally
pub mod Success
pub mod Breaker
pub mod Permanent
pub mod Budget
pub mod Recovery
pub mod Willing
pub mod Cancel
pub mod Bag
