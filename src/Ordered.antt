-- ===== src/Ordered.antt =====
-- The ordered index of ordered.go, ordered_codec.go and ordered_seam.go.
pub mod Record
pub mod Errors
pub mod Libraries
pub mod Codec
pub mod Index
pub mod View
pub mod Store
pub mod Seam
pub mod History
pub mod Registry
