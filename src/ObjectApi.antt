-- ===== src/ObjectApi.antt =====
-- python/memtier: the binding of the C library, and the reads of a file through Python alone.
pub mod Chunks
pub mod Runtime
pub mod Tensor
pub mod Index
pub mod Lifecycle
