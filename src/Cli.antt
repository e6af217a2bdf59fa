-- ===== src/Cli.antt =====
-- cmd/uploadfun: the command line. `Json`, `Throttle` and `Printer` are printer.go, `Files`, `Flags`
-- and `Main` are main.go; the other modules hold proofs.
pub mod Json
pub mod Throttle
pub mod Printer
pub mod Output
pub mod Flags
pub mod Interleaved
pub mod Files
pub mod Collisions
pub mod Given
pub mod Taken
pub mod Expanded
pub mod Main
pub mod Exit
pub mod Loaded
pub mod Signals
pub mod Written
pub mod Order
pub mod Percent
pub mod Keys
pub mod Elsewhere
pub mod Levels
pub mod Steps
pub mod Full
