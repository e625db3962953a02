-- ===== src/Platform.antt =====
-- The third-party types that the source computes with, as interfaces.
pub mod Decimal
pub mod Chrono
pub mod Floats
pub mod Json
pub mod Sample
