-- ===== src/Criteo.antt =====
-- memtier_embedding_bench/python/criteo_trace_dataset.py: from rows of Criteo text to embedding ids.
pub mod Hash
pub mod Ids
pub mod Line
pub mod Sizes
