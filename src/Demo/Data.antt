-- ===== src/Demo/Data.antt =====
-- frontend/src/data/mock.ts: what the demo pages show.
pub mod Compute
pub mod Buckets
pub mod Services
pub mod Registry
pub mod People
