-- ===== src/Harness.antt =====
-- internal/testdocker and internal/testservers: the servers that the integration tests run against.
-- `Machine` is what they do to the machine, `Docker` and `Servers` are the two packages; the other
-- modules hold proofs.
pub mod Machine
pub mod Docker
pub mod Servers
pub mod Waiting
pub mod Keys
pub mod Started
pub mod Ftpd
