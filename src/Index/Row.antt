-- ===== src/Index/Row.antt =====
-- `frame_xref_t` of mlvfs/index.c.
use mlvfs.Base.{ℕ}

-- One row of the table from which the index is made.
pub record FrameXref : Type 0 where
  pub frame_time : ℕ
  pub frame_offset : ℕ
  pub file_number : ℕ
  pub frame_type : ℕ
