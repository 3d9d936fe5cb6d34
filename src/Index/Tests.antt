-- ===== src/Index/Tests.antt =====
-- The index of mlvfs/index.c on a chunk with a file header, two frames and a block between them.
use mlvfs.Base.{
  ℕ, ◌≤◌, ◌<◌, ◌≡◌, refl, true, false, Option, none, some, List, [], ◌∷◌, ◌++◌, map, length,
  replicate, arith, Bytes, bytes_eq, le_value, le_bytes, slice, read_at, All,
}
use mlvfs.Index.Row.{FrameXref}
use mlvfs.Index.Block.{mlvi, vidf, audf, mlv_hdr, file_num, file_guid}
use mlvfs.Index.Sort.{xref_sort, sort_loop, pass}
use mlvfs.Index.Sort.Order.{IsSorted, rows_at}
use mlvfs.Index.Sort.Pass.{xref_sort_lem}
use mlvfs.Index.Scan.{
  scan_chunks, scan_chunk, scan_round, round_block, read_file_hdr, overlay, frame_type_of,
}
use mlvfs.Index.Scan.Sound.{Describes}
use mlvfs.Index.Encode.{
  Fits, xref_of, index_bytes, index_hdr_bytes, entry_bytes, xref_bytes, make_index, index_xrefs,
  index_xrefs-index_bytes,
}
use mlvfs.Index.Store.{
  Disk, load_chunks, load_index, get_index, next_chunks, main_header_of, with_suffix,
}
use mlvfs.Index.Store.Total.{make_index_lem, length-load_chunks, load_index_total}
use mlvfs.Index.Store.Rebuild.{get_index-rebuilds}

abbrev stack : Bytes
stack = replicate 52 9

abbrev row : ℕ → ℕ → ℕ → FrameXref
row t o k = record { frame_time = t; frame_offset = o; file_number = 0; frame_type = k }

abbrev block : Bytes → ℕ → ℕ → Bytes
block type size time = type ++ (le_bytes 4 size ++ (le_bytes 8 time ++ replicate 4 0))

-- The file header, then a frame at time 7, sound at time 5 and a frame at time 5.
abbrev chunk : Bytes
chunk =
    mlvi
    ++ (le_bytes 4 52
        ++ (replicate 44 0 ++ (block vidf 20 7 ++ (block audf 20 5 ++ block vidf 20 5))))

abbrev rows : List FrameXref
rows = row 0 0 0 ∷ row 5 72 2 ∷ row 5 92 1 ∷ row 7 52 1 ∷ []

make_index-chunk : make_index stack (chunk ∷ []) ≡ some (index_bytes rows)
unfolding make_index scan_chunks scan_chunk scan_round round_block read_file_hdr overlay
    frame_type_of mlv_hdr file_num file_guid xref_sort sort_loop pass read_at slice bytes_eq
    le_value le_bytes index_bytes entry_bytes index_hdr_bytes xref_bytes
make_index-chunk = refl

xref_sort_lem_example :
    IsSorted (xref_sort (row 7 52 1 ∷ row 5 72 2 ∷ row 5 92 1 ∷ []))
    × ((t : ℕ)
        → rows_at t (xref_sort (row 7 52 1 ∷ row 5 72 2 ∷ row 5 92 1 ∷ []))
          ≡ rows_at t (row 7 52 1 ∷ row 5 72 2 ∷ row 5 92 1 ∷ []))
xref_sort_lem_example = xref_sort_lem (row 7 52 1 ∷ row 5 72 2 ∷ row 5 92 1 ∷ [])

make_index_lem_example :
    (table : List FrameXref) × (make_index stack (chunk ∷ []) ≡ some (index_bytes table))
    × IsSorted table
    × All (Describes (chunk ∷ [])) table
make_index_lem_example = make_index_lem stack (chunk ∷ []) (omega arith)

fits : (t o k : ℕ) → o < 256 → k < 3 → Fits (row t o k)
fits t o k p q = record {
  file_number = omega arith;
  frame_type = omega arith;
  frame_offset = omega arith;
}

index_xrefs-index_bytes_example : index_xrefs (index_bytes rows) ≡ map xref_of rows
index_xrefs-index_bytes_example = index_xrefs-index_bytes rows (omega arith) (
  fits 0 0 0 (omega arith) (omega arith),
  (
    fits 5 72 2 (omega arith) (omega arith),
    (fits 5 92 1 (omega arith) (omega arith), (fits 7 52 1 (omega arith) (omega arith), tt)),
  ),
)

abbrev movie : Bytes
movie = b'A' ∷ b'.' ∷ b'M' ∷ b'L' ∷ b'V' ∷ []

-- A disk with this one file, on which every name can be written.
abbrev disk : Disk
disk = record {
  files = λ n. elim (bytes_eq n movie) [ true ↦ some chunk | false ↦ none ];
  writable = λ n. true;
}

load_chunks-disk : load_chunks movie disk ≡ some (chunk ∷ [])
unfolding load_chunks next_chunks with_suffix bytes_eq
load_chunks-disk = refl

length-load_chunks_example : (0 < length (chunk ∷ [])) × (length (chunk ∷ []) ≤ 100)
length-load_chunks_example = length-load_chunks movie disk (chunk ∷ []) load_chunks-disk

load_index-disk : load_index movie disk ≡ some none
unfolding load_index with_suffix bytes_eq
load_index-disk = refl

load_index_total_example : (r : Option Bytes) × (load_index movie disk ≡ some r)
load_index_total_example = load_index_total movie disk

chunk_header :
    (length (main_header_of stack (chunk ∷ [])) ≡ 52)
    × (slice (main_header_of stack (chunk ∷ [])) 0 4 ≡ mlvi)
unfolding main_header_of read_at slice le_bytes
chunk_header = (refl, refl)

get_index-rebuilds_example :
    (d' : Disk) × (get_index stack movie disk ≡ some (some (index_bytes rows), d'))
    × (get_index stack movie d' ≡ some (some (index_bytes rows), d'))
unfolding main_header_of read_at slice le_bytes bytes_eq
get_index-rebuilds_example =
    get_index-rebuilds stack movie disk (chunk ∷ []) rows load_chunks-disk make_index-chunk refl
      refl (omega arith) refl load_index-disk
