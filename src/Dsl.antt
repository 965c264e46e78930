-- ===== src/Dsl.antt =====
-- The pipeline DSL: src/nexus/_internal/core/dsl.
pub mod Nodes
pub mod Pipes
mod Tests
