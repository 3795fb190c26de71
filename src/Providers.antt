-- ===== src/Providers.antt =====
-- The provider side: src/modules/providers.
pub mod Status
