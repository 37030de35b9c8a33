-- ===== src/Tests.antt =====
-- The theorems at concrete inputs.
pub mod Bits
pub mod Builders
pub mod Rings
pub mod Sectors
pub mod Tables
