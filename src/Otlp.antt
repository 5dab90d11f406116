-- ===== src/Otlp.antt =====
-- The telemetry edge: internal/otlp.

pub mod Wire
pub mod Fields
pub mod Protobuf
pub mod Messages
pub mod Counts
pub mod Dialect
pub mod Batch
pub mod Varint
pub mod RoundTrip
pub mod Bounds
pub mod Kept
pub mod Listed
pub mod Classes
pub mod Conserved
pub mod Within
pub mod Once
