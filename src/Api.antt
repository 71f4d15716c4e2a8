-- ===== src/Api.antt =====
-- The resource types of api/v1alpha1. An `int32` weight is its bit pattern: it is only copied.
pub mod Meta
pub mod Cell
pub mod Placement
pub mod Router
