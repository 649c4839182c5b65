-- ===== src/Model.antt =====
-- The data of the platform, its database and the effects of a core function
-- (packages/itmat-types/src/types, packages/itmat-cores/src/database).
pub mod Types
pub mod Value
pub mod Formula
pub mod World
pub mod Action
pub mod Collection
