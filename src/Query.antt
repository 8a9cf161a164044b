-- ===== src/Query.antt =====
-- src/query: the parts of the query pipeline.
pub mod BufferPool
pub mod ResultCollector
pub mod RerankConsumer
