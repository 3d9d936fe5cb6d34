-- ===== src/Index.antt =====
-- The frame index of mlvfs/index.c over the block structures of mlvfs/mlv.h.
pub mod Row
pub mod Sort
pub mod Block
pub mod Scan
pub mod Encode
pub mod Store
mod Tests
