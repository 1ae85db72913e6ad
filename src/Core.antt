-- ===== src/Core.antt =====
-- The core package (packages/core/src/anime_core).
pub mod Breaker
pub mod Schemas
pub mod KillSwitch
pub mod Cache
pub mod Quota
pub mod Embedder
pub mod Session
pub mod CostMeter
pub mod Redaction
