-- ===== src/Headers/Tests.antt =====
-- The headers of a frame on a disk with one chunk, whose IDX file holds its index.
use mlvfs.Base.{
  ℕ, All, ◌≡◌, refl, true, false, none, some, [], ◌∷◌, ◌++◌, replicate, arith, Bytes, bytes_eq,
  le_value, le_bytes, slice, read_at,
}
use mlvfs.Index.Row.{FrameXref}
use mlvfs.Index.Block.{mlv_hdr, mlvi, vidf}
use mlvfs.Index.Encode.{
  Xref, index_bytes, index_hdr_bytes, entry_bytes, xref_bytes, index_xrefs, read_xrefs, xref_at,
  entry_count,
}
use mlvfs.Index.Store.{
  Disk, load_chunks, load_index, get_index, next_chunks, with_suffix, load_loop, count_vidf,
  mlv_get_frame_count,
}
use mlvfs.Headers.{
  FrameHeaders, rawi, mlv_get_frame_headers, search, search_entry, search_vidf, search_other,
  read_block, read_whole, read_header,
}
use mlvfs.Index.Scan.{overlay}
use mlvfs.Headers.Search.{vidf_at, InChunks}
use mlvfs.Headers.Rawi.{rawi_before}
use mlvfs.Headers.Count.{mlv_get_frame_headers-counted, mlv_get_frame_headers_beyond}

abbrev row : ℕ → ℕ → FrameXref
row o k = record { frame_time = 0; frame_offset = o; file_number = 0; frame_type = k }

-- The file header, a RAWI block and a frame.
abbrev chunk : Bytes
chunk =
    (mlvi ++ (le_bytes 4 52 ++ replicate 44 0))
    ++ ((rawi ++ (le_bytes 4 180 ++ replicate 172 0))
        ++ (vidf ++ (le_bytes 4 32 ++ replicate 24 0)))

abbrev index_file : Bytes
index_file = index_bytes (row 0 0 ∷ row 52 0 ∷ row 232 1 ∷ [])

abbrev movie : Bytes
movie = b'A' ∷ b'.' ∷ b'M' ∷ b'L' ∷ b'V' ∷ []

abbrev disk : Disk
disk = record {
  files = λ n. elim (bytes_eq n movie) [
    | true ↦ some chunk
    | false ↦ elim (bytes_eq n (b'A' ∷ b'.' ∷ b'I' ∷ b'D' ∷ b'X' ∷ [])) [
      | true ↦ some index_file
      | false ↦ none
    ]
  ];
  writable = λ n. true;
}

load_chunks-disk : load_chunks movie disk ≡ some (chunk ∷ [])
unfolding load_chunks next_chunks with_suffix bytes_eq
load_chunks-disk = refl

count-disk : mlv_get_frame_count [] movie disk ≡ some (1, disk)
unfolding mlv_get_frame_count get_index load_index load_loop with_suffix bytes_eq mlv_hdr read_at
    slice le_value le_bytes index_bytes index_hdr_bytes entry_bytes xref_bytes index_xrefs
    read_xrefs xref_at entry_count count_vidf
count-disk = refl

in_chunk :
    (j : Bytes)
    → load_index movie disk ≡ some (some j)
    → All (InChunks (chunk ∷ [])) (index_xrefs j)
unfolding load_index load_loop with_suffix bytes_eq mlv_hdr read_at slice le_value le_bytes
    index_bytes index_hdr_bytes entry_bytes xref_bytes index_xrefs read_xrefs xref_at entry_count
in_chunk j h =
    let same : index_file ≡ j = cc in rw (← same) (omega arith, (omega arith, (omega arith, tt)))

mlv_get_frame_headers-counted_example :
    (j : Bytes) × (load_index movie disk ≡ some (some j))
    × (x : Xref) × (vidf_at 0 (index_xrefs j) ≡ some x)
    × (h : FrameHeaders) × (mlv_get_frame_headers [] [] movie 0 disk
        ≡ some (rawi_before (chunk ∷ []) 0 (index_xrefs j), h, disk))
    × (h.file_number ≡ x.file_number)
    × (h.position ≡ x.frame_offset)
mlv_get_frame_headers-counted_example =
    mlv_get_frame_headers-counted [] [] movie disk disk 1 0 (chunk ∷ []) count-disk (omega arith)
      load_chunks-disk in_chunk

mlv_get_frame_headers_beyond_example :
    (h : FrameHeaders) × (mlv_get_frame_headers [] [] movie 1 disk ≡ some (false, h, disk))
mlv_get_frame_headers_beyond_example =
    mlv_get_frame_headers_beyond [] [] movie disk disk 1 1 (chunk ∷ []) count-disk (omega arith)
      (omega arith) load_chunks-disk in_chunk

-- The one frame is found, and the RAWI block before it.
frame-disk :
    (h : FrameHeaders) × (mlv_get_frame_headers [] [] movie 0 disk ≡ some (true, h, disk))
    × (h.position ≡ 232)
unfolding mlv_get_frame_headers get_index load_index load_loop load_chunks next_chunks with_suffix
    bytes_eq mlv_hdr read_at slice le_value le_bytes index_bytes index_hdr_bytes entry_bytes
    xref_bytes index_xrefs read_xrefs xref_at entry_count search search_entry search_vidf
    search_other read_block read_whole read_header overlay
frame-disk = (_, refl, refl)
