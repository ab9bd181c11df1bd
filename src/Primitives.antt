-- ===== src/Primitives.antt =====
-- The shared kernel's primitives: shared/primitives and shared/id.
pub mod Text
pub mod EntityId
mod Tests
