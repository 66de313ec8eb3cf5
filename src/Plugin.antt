-- ===== src/Plugin.antt =====
-- The plugin host's manager (cool-next/plugin/host/manager): its compile cache.
pub mod Cache
pub mod Generation
mod Examples
