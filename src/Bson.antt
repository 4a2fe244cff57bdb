-- ===== src/Bson.antt =====
-- The bundled BSON headers that the operators' code is compiled with.
pub mod Types
pub mod Canonical
pub mod Document
pub mod Element
pub mod Builder
pub mod Ordering
pub mod Directions
