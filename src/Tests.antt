-- ===== src/Tests.antt =====
-- Concrete runs of the query handlers, and the theorems at concrete inputs.
pub mod Data
pub mod Runs
pub mod Witnesses
pub mod Stocked
pub mod Sweeps
pub mod Clients
pub mod Parts
pub mod Loop
pub mod Process
