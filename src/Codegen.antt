-- ===== src/Codegen.antt =====
-- The code generator's order of components (cool-next/codegen).
mod Examples
pub mod Cycle
pub mod Topology
