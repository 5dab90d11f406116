-- ===== src/Examples.antt =====
-- Runs of the definitions on concrete inputs, and the theorems applied to them.

pub mod Amounts
pub mod Writes
pub mod Workers
pub mod Keys
pub mod Telemetry
pub mod Verdicts
pub mod Prices
