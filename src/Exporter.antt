-- ===== src/Exporter.antt =====
-- internal/exporter: the batches for Elasticsearch.
pub mod Elk
