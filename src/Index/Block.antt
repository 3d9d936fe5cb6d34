-- ===== src/Index/Block.antt =====
-- The block headers of mlvfs/mlv.h as mlvfs/index.c reads them from a file.
use mlvfs.Base.{ℕ, Bytes, ◌∷◌, [], le_value, slice}

-- `mlv_hdr_t`, 16 bytes: a type of four characters, a size and a timestamp.
pub record MlvHdr : Type 0 where
  pub block_type : Bytes
  pub block_size : ℕ
  pub timestamp : ℕ

abbrev pub sizeof_mlv_hdr : ℕ
sizeof_mlv_hdr = 16

unfoldable pub mlv_hdr : Bytes → MlvHdr
mlv_hdr bs = record {
  block_type = slice bs 0 4;
  block_size = le_value (slice bs 4 4);
  timestamp = le_value (slice bs 8 8);
}

-- `mlv_file_hdr_t`, 52 bytes, of which the index reads two fields.
abbrev pub sizeof_mlv_file_hdr : ℕ
sizeof_mlv_file_hdr = 52

unfoldable pub file_guid : Bytes → ℕ
file_guid bs = le_value (slice bs 16 8)

unfoldable pub file_num : Bytes → ℕ
file_num bs = le_value (slice bs 24 2)

-- The block types, and `MLV_FRAME_…`.
abbrev pub mlvi : Bytes
mlvi = b'M' ∷ b'L' ∷ b'V' ∷ b'I' ∷ []

abbrev pub null : Bytes
null = b'N' ∷ b'U' ∷ b'L' ∷ b'L' ∷ []

abbrev pub vidf : Bytes
vidf = b'V' ∷ b'I' ∷ b'D' ∷ b'F' ∷ []

abbrev pub audf : Bytes
audf = b'A' ∷ b'U' ∷ b'D' ∷ b'F' ∷ []

abbrev pub xref : Bytes
xref = b'X' ∷ b'R' ∷ b'E' ∷ b'F' ∷ []

abbrev pub mlv_frame_unspecified : ℕ
mlv_frame_unspecified = 0

abbrev pub mlv_frame_vidf : ℕ
mlv_frame_vidf = 1

abbrev pub mlv_frame_audf : ℕ
mlv_frame_audf = 2
