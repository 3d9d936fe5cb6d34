-- ===== src/Index/Scan.antt =====
-- The scan of the chunk files in `make_index` of mlvfs/index.c: the rows before they are sorted.
pub mod Sound
pub mod Fuel
use mlvfs.Base.{
  ℕ, zero, suc, ◌+◌, ◌%◌, ◌≤◌, min, Bool, true, false, Option, none, some, List, [], ◌∷◌, ◌++◌, ltb,
  ◌==◌, ◌||◌, if◌then◌else◌, Bytes, bytes_eq, read_at, drop, length,
}
use mlvfs.Index.Row.{FrameXref}
use mlvfs.Index.Block.{
  MlvHdr, mlv_hdr, sizeof_mlv_hdr, sizeof_mlv_file_hdr, file_guid, file_num, mlvi, null, vidf, audf,
  mlv_frame_unspecified, mlv_frame_vidf, mlv_frame_audf,
}

-- The variables of the loops: `main_header` and the rows, newest last.
pub record ScanState : Type 0 where
  pub main_header : Bytes
  pub rows : List FrameXref

-- What a short header that is read over a variable leaves: the bytes read, then what stood there.
unfoldable pub overlay : Bytes → Bytes → Bytes
overlay new old = new ++ drop (length new) old

unfoldable pub frame_type_of : Bytes → ℕ
frame_type_of t =
    if bytes_eq t vidf
    then mlv_frame_vidf
    else if bytes_eq t audf
    then mlv_frame_audf
    else mlv_frame_unspecified

-- The branch for an MLVI block: the main header after it, or `none` where the loop is left.
-- `stack` is what the uninitialised `file_hdr` held.
unfoldable pub read_file_hdr : Bytes → Bytes → ℕ → MlvHdr → Bytes → Option Bytes
read_file_hdr stack file position hdr main_header =
    elim (read_at file position (min sizeof_mlv_file_hdr hdr.block_size)) [
      | none ↦ none
      | some bs ↦
          let file_hdr = overlay bs stack in
          if file_num file_hdr == 0
          then some file_hdr
          else if file_guid main_header == file_guid file_hdr
          then some main_header
          else none
    ]

-- The header test `blockSize < sizeof(mlv_hdr_t) || blockSize > 1024 * 1024 * 1024`.
abbrev pub bad_size : MlvHdr → Bool
bad_size h = ltb h.block_size sizeof_mlv_hdr || ltb 1073741824 h.block_size

-- One round of the `while` at `position`: the state and the position after it, or the state with
-- which the loop is left.
pub data Round : Type 0 where
  left : ScanState → Round
  on : ScanState → ℕ → Round

abbrev pub add_row : ℕ → ℕ → ℕ → MlvHdr → List FrameXref → List FrameXref
add_row chunk position time h rows =
    if bytes_eq h.block_type null
    then rows
    else (rows
        ++ record {
          frame_time = time;
          frame_offset = position;
          file_number = chunk % 65536;
          frame_type = frame_type_of h.block_type;
        }
          ∷ [])

unfoldable pub round_block : Bytes → Bytes → ℕ → ℕ → ScanState → MlvHdr → Round
round_block stack file chunk position s h =
    if bad_size h
    then left s
    else if bytes_eq h.block_type mlvi
    then (elim (read_file_hdr stack file position h s.main_header) [
      | none ↦ left s
      | some m ↦
          on (record { main_header = m; rows = add_row chunk position 0 h s.rows })
            (position + h.block_size)
    ])
    else on (record s { rows = add_row chunk position h.timestamp h s.rows })
        (position + h.block_size)

unfoldable pub scan_round : Bytes → Bytes → ℕ → ℕ → ScanState → Round
scan_round stack file chunk position s = elim (read_at file position sizeof_mlv_hdr) [
  | none ↦ left s
  | some bs ↦ round_block stack file chunk position s (mlv_hdr bs)
]

-- The `while (1)` over one chunk; `none` is out of fuel.
unfoldable pub scan_chunk : ℕ → Bytes → Bytes → ℕ → ℕ → ScanState → Option ScanState
scan_chunk zero stack file chunk position s = none
scan_chunk (suc fuel) stack file chunk position s = elim (scan_round stack file chunk position s) [
  | left s' ↦ some s'
  | on s' position' ↦ scan_chunk fuel stack file chunk position' s'
]

-- The `for` over the chunks, each scanned from its start.
unfoldable pub scan_chunks : Bytes → List Bytes → ℕ → ScanState → Option ScanState
scan_chunks stack [] chunk s = some s
scan_chunks stack (file ∷ files) chunk s =
    elim (scan_chunk (suc (length file)) stack file chunk 0 s) [
      | none ↦ none
      | some s' ↦ scan_chunks stack files (chunk + 1) s'
    ]
