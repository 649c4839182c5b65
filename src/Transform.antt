-- ===== src/Transform.antt =====
-- Data transformations: packages/itmat-cores/src/coreFunc/transformationCore.ts.
mod Tests
pub mod Data
pub mod Grouping
pub mod Shaping
pub mod Combinations
pub mod Compose
