-- ===== src/Ordered/Seam.antt =====
-- ordered_seam.go.
pub mod Config
pub mod Client
pub mod Streams
pub mod Batch
pub mod Calls
