-- ===== src/Index.antt =====
-- src/index: the IVF index.
pub mod IvfBuilder
