-- ===== src/Analyze.antt =====
-- memtier_embedding_bench/scripts/analyze_trace.py: the statistics of a trace.
pub mod Coverage
pub mod Lru
pub mod Overlap
pub mod Percentile
pub mod Report
