-- ===== src/Config.antt =====
-- config.go: the configuration file. `Policy`, `Env`, `Fields` and `Load` have the definitions; the other
-- modules hold proofs.
pub mod Policy
pub mod Env
pub mod Fields
pub mod Load
pub mod Ranges
pub mod Reference
pub mod Judged
pub mod Decision
pub mod Valid
pub mod Accepted
pub mod Layers
pub mod Interpolate
pub mod Literal
pub mod Complete
