-- ===== src/Headers.antt =====
-- `mlv_get_frame_headers` of mlvfs/main.c: the headers of the blocks that belong to a frame.
pub mod Search
pub mod Rawi
pub mod Count
mod Tests
use mlvfs.Base.{
  ℕ, zero, suc, ◌+◌, min, Bool, true, false, ◌&&◌, Option, none, some, List, [], ◌∷◌, get_elem?,
  replicate, ◌==◌, if◌then◌else◌, Bytes, bytes_eq, slice, read_at,
}
use mlvfs.Index.Block.{
  MlvHdr, mlv_hdr, sizeof_mlv_hdr, sizeof_mlv_file_hdr, mlvi, mlv_frame_vidf, mlv_frame_audf,
}
use mlvfs.Index.Scan.{overlay}
use mlvfs.Index.Encode.{Xref, index_xrefs}
use mlvfs.Index.Store.{Disk, load_chunks, get_index}

-- The sizes of the header structures of mlvfs/mlv.h.
abbrev pub sizeof_mlv_vidf_hdr : ℕ
sizeof_mlv_vidf_hdr = 32

abbrev pub sizeof_mlv_rtci_hdr : ℕ
sizeof_mlv_rtci_hdr = 44

abbrev pub sizeof_mlv_idnt_hdr : ℕ
sizeof_mlv_idnt_hdr = 84

abbrev pub sizeof_mlv_rawi_hdr : ℕ
sizeof_mlv_rawi_hdr = 180

abbrev pub sizeof_mlv_expo_hdr : ℕ
sizeof_mlv_expo_hdr = 40

abbrev pub sizeof_mlv_lens_hdr : ℕ
sizeof_mlv_lens_hdr = 96

abbrev pub sizeof_mlv_wbal_hdr : ℕ
sizeof_mlv_wbal_hdr = 44

-- `struct frame_headers` of mlvfs/mlvfs.h, each header as its bytes.
pub record FrameHeaders : Type 0 where
  pub file_number : ℕ
  pub position : ℕ
  pub vidf_hdr : Bytes
  pub file_hdr : Bytes
  pub rtci_hdr : Bytes
  pub idnt_hdr : Bytes
  pub rawi_hdr : Bytes
  pub expo_hdr : Bytes
  pub lens_hdr : Bytes
  pub wbal_hdr : Bytes

-- What the `memset` leaves.
abbrev pub no_headers : FrameHeaders
no_headers = record {
  file_number = 0;
  position = 0;
  vidf_hdr = replicate sizeof_mlv_vidf_hdr 0;
  file_hdr = replicate sizeof_mlv_file_hdr 0;
  rtci_hdr = replicate sizeof_mlv_rtci_hdr 0;
  idnt_hdr = replicate sizeof_mlv_idnt_hdr 0;
  rawi_hdr = replicate sizeof_mlv_rawi_hdr 0;
  expo_hdr = replicate sizeof_mlv_expo_hdr 0;
  lens_hdr = replicate sizeof_mlv_lens_hdr 0;
  wbal_hdr = replicate sizeof_mlv_wbal_hdr 0;
}

-- The variables of the loop. `block` is the `mlv_hdr` that was read last, as its bytes.
pub record SearchState : Type 0 where
  pub headers : FrameHeaders
  pub found : Bool
  pub rawi_found : Bool
  pub vidf_counter : ℕ
  pub block : Bytes

abbrev pub rtci : Bytes
rtci = b'R' ∷ b'T' ∷ b'C' ∷ b'I' ∷ []

abbrev pub idnt : Bytes
idnt = b'I' ∷ b'D' ∷ b'N' ∷ b'T' ∷ []

abbrev pub rawi : Bytes
rawi = b'R' ∷ b'A' ∷ b'W' ∷ b'I' ∷ []

abbrev pub expo : Bytes
expo = b'E' ∷ b'X' ∷ b'P' ∷ b'O' ∷ []

abbrev pub lens : Bytes
lens = b'L' ∷ b'E' ∷ b'N' ∷ b'S' ∷ []

abbrev pub wbal : Bytes
wbal = b'W' ∷ b'B' ∷ b'A' ∷ b'L' ∷ []

-- `fread(&hdr, MIN(sizeof(hdr), blockSize), 1, in_file)`: a read that comes short overwrites the
-- start of the header.
unfoldable pub read_header : Bytes → ℕ → ℕ → MlvHdr → Bytes → Bytes
read_header file position size h old = overlay (slice file position (min size h.block_size)) old

-- Whether that read returns one item.
unfoldable pub read_whole : Bytes → ℕ → ℕ → MlvHdr → Bool
read_whole file position size h = elim (read_at file position (min size h.block_size)) [
  | none ↦ false
  | some bs ↦ true
]

-- The chain of block types under `MLV_FRAME_UNSPECIFIED`, and `rawi_found` after it.
unfoldable pub read_block : Bytes → ℕ → MlvHdr → Bool → FrameHeaders → FrameHeaders × Bool
read_block file position h rawi_found f =
    let read = λ (size : ℕ). read_header file position size h in
    if bytes_eq h.block_type mlvi
    then (record f { file_hdr = read sizeof_mlv_file_hdr f.file_hdr }, rawi_found)
    else if bytes_eq h.block_type rtci
    then (record f { rtci_hdr = read sizeof_mlv_rtci_hdr f.rtci_hdr }, rawi_found)
    else if bytes_eq h.block_type idnt
    then (record f { idnt_hdr = read sizeof_mlv_idnt_hdr f.idnt_hdr }, rawi_found)
    else if bytes_eq h.block_type rawi
    then (
      record f { rawi_hdr = read sizeof_mlv_rawi_hdr f.rawi_hdr },
      (if read_whole file position sizeof_mlv_rawi_hdr h then true else rawi_found),
    )
    else if bytes_eq h.block_type expo
    then (record f { expo_hdr = read sizeof_mlv_expo_hdr f.expo_hdr }, rawi_found)
    else if bytes_eq h.block_type lens
    then (record f { lens_hdr = read sizeof_mlv_lens_hdr f.lens_hdr }, rawi_found)
    else if bytes_eq h.block_type wbal
    then (record f { wbal_hdr = read sizeof_mlv_wbal_hdr f.wbal_hdr }, rawi_found)
    else (f, rawi_found)

-- The case of a video frame.
unfoldable pub search_vidf : ℕ → Bytes → Xref → SearchState → SearchState
search_vidf index file x s =
    let block = overlay (slice file x.frame_offset sizeof_mlv_hdr) s.block in
    let vidf =
      read_header file x.frame_offset sizeof_mlv_vidf_hdr (mlv_hdr block) s.headers.vidf_hdr in
    if index == s.vidf_counter
    then record s {
      headers = record (s.headers) {
        file_number = x.file_number;
        position = x.frame_offset;
        vidf_hdr = vidf;
      };
      found = true;
      block = block;
    }
    else record s { vidf_counter = s.vidf_counter + 1 }

-- The default case.
unfoldable pub search_other : Bytes → Xref → SearchState → SearchState
search_other file x s =
    let block = overlay (slice file x.frame_offset sizeof_mlv_hdr) s.block in
    elim (read_at file x.frame_offset sizeof_mlv_hdr) [
      | none ↦ record s { block = block }
      | some bs ↦
          let r = read_block file x.frame_offset (mlv_hdr block) s.rawi_found s.headers in
          record s { headers = r.0; rawi_found = r.1; block = block }
    ]

-- An entry, with the chunk that it names.
unfoldable pub search_entry : Bytes → ℕ → Xref → SearchState → SearchState
search_entry file index x s =
    if x.frame_type == mlv_frame_vidf
    then search_vidf index file x s
    else if x.frame_type == mlv_frame_audf
    then s
    else search_other file x s

-- The `for`, which ends when the frame is found. `none` is the read of an entry that names a chunk
-- behind those that were opened.
unfoldable pub search : List Bytes → ℕ → List Xref → SearchState → Option SearchState
search chunks index [] s = some s
search chunks index (x ∷ xs) s =
    let rest : Option SearchState = elim (get_elem? chunks x.file_number) [
      | none ↦ none
      | some file ↦ search chunks index xs (search_entry file index x s)
    ] in
    if s.found then some s else rest

abbrev pub start_search : Bytes → SearchState
start_search stack = record {
  headers = no_headers;
  found = false;
  rawi_found = false;
  vidf_counter = 0;
  block = stack;
}

-- Whether the headers were found, the headers and the disk, which gains an IDX file if there was
-- none. `stack` and `stack'` are what uninitialised variables hold; the outer `none` is
-- the fault of the search, or out of fuel, which does not happen. Where the chunks cannot be opened, the source leaves the caller's
-- structure as it was, and this returns an empty one.
unfoldable pub mlv_get_frame_headers :
    Bytes → Bytes → Bytes → ℕ → Disk → Option (Bool × FrameHeaders × Disk)
mlv_get_frame_headers stack stack' name index d = elim (load_chunks name d) [
  | none ↦ some (false, no_headers, d)
  | some chunks ↦ elim (get_index stack name d) [
    | none ↦ none
    | some (none, d') ↦ some (false, no_headers, d')
    | some (some i, d') ↦ elim (search chunks index (index_xrefs i) (start_search stack')) [
      | none ↦ none
      | some s ↦ some (s.found && s.rawi_found, s.headers, d')
    ]
  ]
]
