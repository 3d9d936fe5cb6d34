-- ===== src/Readdir/Tests.antt =====
-- The listing of the file "/v/A.MLV", which has a RAWI block and one frame, by mlvfs/main.c.
use mlvfs.Base.{
  ℕ, ◌≡◌, refl, inl, true, false, none, some, List, [], ◌∷◌, ◌++◌, replicate, arith, Bytes, All,
  bytes_eq, le_value, le_bytes, slice, read_at,
}
use mlvfs.FrameNumber.{plus, dng_name, six_digits, more_digits, get_mlv_frame_number}
use mlvfs.Index.Row.{FrameXref}
use mlvfs.Index.Block.{mlv_hdr, mlvi, vidf}
use mlvfs.Index.Encode.{
  Xref, index_bytes, index_hdr_bytes, entry_bytes, xref_bytes, index_xrefs, read_xrefs, xref_at,
  entry_count,
}
use mlvfs.Index.Store.{
  Disk, load_chunks, load_index, get_index, next_chunks, with_suffix, load_loop, count_vidf,
  mlv_get_frame_count,
}
use mlvfs.Headers.{FrameHeaders, rawi, mlv_get_frame_headers}
use mlvfs.Headers.Search.{vidf_at, InChunks}
use mlvfs.Headers.Rawi.{rawi_before}
use mlvfs.Wav.Headers.{has_audio}
use mlvfs.Paths.{
  SlreMatch, Options, path_append, strstr, starts_with, hidden, is_mlv_file, upper_mlv, mld,
  string_ends_with, mlvfs_resolve_path, mlvfs_resolve_virtual,
}
use mlvfs.Paths.Names.{IsName, join, split_mlv}
use mlvfs.Readdir.{
  find_last_separator, file_name, dt_dir, dt_other, Folders, Stack, dots, virtual_names,
  mlvfs_readdir,
}
use mlvfs.Readdir.Listing.{folder_names, mlvfs_readdir-mlv}
use mlvfs.Readdir.Frames.{Listed, mlvfs_readdir-frames}

abbrev no_match : SlreMatch
no_match path = none

abbrev options : Options
options = record { mlv_path = b'/' ∷ b'v' ∷ []; name_scheme = 0 }

-- A ".MLD" folder with a note in it.
abbrev folders : Folders
folders = record {
  opendir = λ path d. some (
      record { d_name = b'.' ∷ []; d_type = dt_dir }
      ∷ record { d_name = b'n' ∷ []; d_type = dt_other }
      ∷ []);
  is_dir = λ path d. false;
  date_text = λ h. [];
}

abbrev stack : Stack
stack = record { main_header = []; block = [] }

abbrev row : ℕ → ℕ → FrameXref
row o k = record { frame_time = 0; frame_offset = o; file_number = 0; frame_type = k }

abbrev chunk : Bytes
chunk =
    (mlvi ++ (le_bytes 4 52 ++ replicate 44 0))
    ++ ((rawi ++ (le_bytes 4 180 ++ replicate 172 0))
        ++ (vidf ++ (le_bytes 4 32 ++ replicate 24 0)))

abbrev index_file : Bytes
index_file = index_bytes (row 0 0 ∷ row 52 0 ∷ row 232 1 ∷ [])

abbrev start : Bytes
start = b'/' ∷ b'v' ∷ b'/' ∷ b'A' ∷ []

abbrev real_movie : Bytes
real_movie = start ++ upper_mlv

abbrev disk : Disk
disk = record {
  files = λ n. elim (bytes_eq n real_movie) [
    | true ↦ some chunk
    | false ↦ elim (bytes_eq n (start ++ b'.' ∷ b'I' ∷ b'D' ∷ b'X' ∷ [])) [
      | true ↦ some index_file
      | false ↦ none
    ]
  ];
  writable = λ n. true;
}

abbrev movie : Bytes
movie = b'A' ∷ upper_mlv

abbrev names : List Bytes
names = movie ∷ []

abbrev path : Bytes
path = b'/' ∷ join names

names-IsName : All IsName names
names-IsName = (
  (
    omega arith,
    (refl, (refl, (refl, (refl, (refl, tt))))),
    (refl, (refl, (refl, (refl, (refl, tt))))),
  ),
  tt,
)

path-shown : strstr path hidden ≡ false
unfolding strstr starts_with
path-shown = refl

split-names : split_mlv names ≡ some (names, [])
unfolding split_mlv is_mlv_file string_ends_with bytes_eq
split-names = refl

path_append-names : path_append (b'/' ∷ b'v' ∷ []) (join names) ≡ real_movie
unfolding path_append string_ends_with bytes_eq
path_append-names = refl

load_chunks-disk :
    load_chunks (path_append (b'/' ∷ b'v' ∷ []) (join names)) disk ≡ some (chunk ∷ [])
unfolding load_chunks next_chunks with_suffix bytes_eq path_append string_ends_with
load_chunks-disk = refl

count-disk :
    mlv_get_frame_count [] (path_append (b'/' ∷ b'v' ∷ []) (join names)) disk ≡ some (1, disk)
unfolding mlv_get_frame_count get_index load_index load_loop with_suffix bytes_eq mlv_hdr read_at
    slice le_value le_bytes index_bytes index_hdr_bytes entry_bytes xref_bytes index_xrefs
    read_xrefs xref_at entry_count count_vidf path_append string_ends_with
count-disk = refl

in_chunk :
    (j : Bytes)
    → load_index (path_append (b'/' ∷ b'v' ∷ []) (join names)) disk ≡ some (some j)
    → All (InChunks (chunk ∷ [])) (index_xrefs j)
unfolding load_index load_loop with_suffix bytes_eq mlv_hdr read_at slice le_value le_bytes
    index_bytes index_hdr_bytes entry_bytes xref_bytes index_xrefs read_xrefs xref_at entry_count
    path_append string_ends_with
in_chunk j h =
    let same : index_file ≡ j = cc in rw (← same) (omega arith, (omega arith, (omega arith, tt)))

mlvfs_readdir-mlv_example :
    mlvfs_readdir no_match options folders stack path disk
    ≡ some (
      plus 0,
      (dots
            ++ virtual_names
                (file_name start)
                (has_audio (path_append (b'/' ∷ b'v' ∷ []) (join names)) disk)
                1)
          ++ folder_names (folders.opendir (start ++ mld) disk),
      disk,
    )
mlvfs_readdir-mlv_example =
    mlvfs_readdir-mlv no_match options folders stack refl names names start disk disk 1 names-IsName
      path-shown split-names (inl path_append-names) count-disk

-- Its one frame.
abbrev frame : Bytes
frame = dng_name (file_name start) 0

frame-IsName : IsName frame
unfolding dng_name six_digits more_digits file_name find_last_separator
frame-IsName = (
  omega arith,
  (
    refl,
    (refl, (refl, (refl, (refl, (refl, (refl, (refl, (refl, (refl, (refl, (refl, tt))))))))))),
  ),
  (
    refl,
    (refl, (refl, (refl, (refl, (refl, (refl, (refl, (refl, (refl, (refl, (refl, tt))))))))))),
  ),
)

frame-shown : strstr (b'/' ∷ join (names ++ frame ∷ [])) hidden ≡ false
unfolding strstr starts_with dng_name six_digits more_digits file_name find_last_separator
frame-shown = refl

mlvfs_readdir-frames_example :
    ((listed : List Bytes) × (mlvfs_readdir no_match options folders stack path disk
        ≡ some (plus 0, listed, disk))
      × Listed frame listed)
    × (mlvfs_resolve_path no_match options (b'/' ∷ join (names ++ frame ∷ []))
        ≡ some (path_append (b'/' ∷ b'v' ∷ []) (join names), frame))
    × (mlvfs_resolve_virtual no_match options (b'/' ∷ join (names ++ frame ∷ [])) ≡ none)
    × (get_mlv_frame_number (b'/' ∷ join (names ++ frame ∷ [])) ≡ plus 0)
    × ((j : Bytes) × (load_index (path_append (b'/' ∷ b'v' ∷ []) (join names)) disk ≡ some (some j))
        × (x : Xref) × (vidf_at 0 (index_xrefs j) ≡ some x)
        × (h : FrameHeaders) × (mlv_get_frame_headers [] []
              (path_append (b'/' ∷ b'v' ∷ []) (join names))
              0
              disk
            ≡ some (rawi_before (chunk ∷ []) 0 (index_xrefs j), h, disk))
        × (h.file_number ≡ x.file_number)
        × (h.position ≡ x.frame_offset))
mlvfs_readdir-frames_example =
    mlvfs_readdir-frames no_match options folders stack refl names names start disk disk 1 0
      (chunk ∷ []) names-IsName path-shown split-names (inl path_append-names) count-disk
      load_chunks-disk in_chunk (omega arith) (omega arith) frame-IsName frame-shown
