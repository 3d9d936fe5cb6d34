-- ===== src/Getattr/Sample.antt =====
-- A disk with the MLV file "/v/A.MLV", of one frame of four by two pixels, and its IDX file.
use mlvfs.Base.{
  ℕ, ◌≡◌, refl, true, false, none, some, [], ◌∷◌, ◌++◌, replicate, arith, Bytes, bytes_eq, le_value,
  le_bytes, slice, read_at,
}
use mlvfs.FrameNumber.{dng_name, six_digits, more_digits}
use mlvfs.Index.Row.{FrameXref}
use mlvfs.Index.Scan.{overlay}
use mlvfs.Index.Block.{mlv_hdr, mlvi, vidf}
use mlvfs.Index.Encode.{
  index_bytes, index_hdr_bytes, entry_bytes, xref_bytes, index_xrefs, read_xrefs, xref_at,
  entry_count,
}
use mlvfs.Index.Store.{
  Disk, load_chunks, load_index, get_index, next_chunks, with_suffix, load_loop,
}
use mlvfs.Headers.{
  FrameHeaders, no_headers, rawi, mlv_get_frame_headers, search, search_entry, search_vidf,
  search_other, read_block, read_whole, read_header,
}
use mlvfs.Wav.Headers.{WavHeaders}
use mlvfs.Paths.{
  SlreMatch, Options, path_append, strstr, starts_with, is_mlv_file, upper_mlv, string_ends_with,
}
use mlvfs.Paths.Names.{join, split_mlv}
use mlvfs.Readdir.{Stack}
use mlvfs.Getattr.{no_stat, Services}
use mlvfs.Getattr.Frames.{FramePath}

abbrev pub no_match : SlreMatch
no_match path = none

abbrev pub root : Bytes
root = b'/' ∷ b'v' ∷ []

abbrev pub options : Options
options = record { mlv_path = root; name_scheme = 0 }

abbrev pub services : Services
services = record { stat = λ name d. (true, no_stat); mktime = λ tm. 0; debug_log = λ name d. none }

abbrev pub stack : Stack
stack = record { main_header = []; block = [] }

abbrev pub wav_headers : WavHeaders
wav_headers = record { file_hdr = []; wavi_hdr = []; rtci_hdr = []; idnt_hdr = [] }

abbrev pub row : ℕ → ℕ → FrameXref
row o k = record { frame_time = 0; frame_offset = o; file_number = 0; frame_type = k }

abbrev pub chunk : Bytes
chunk =
    (mlvi ++ (le_bytes 4 52 ++ replicate 44 0))
    ++ ((rawi
          ++ (le_bytes 4 180
              ++ (replicate 8 0
                  ++ (le_bytes 2 4
                      ++ (le_bytes 2 2
                          ++ (replicate 24 0 ++ (le_bytes 4 14 ++ replicate 132 0)))))))
        ++ (vidf ++ (le_bytes 4 46 ++ (replicate 24 0 ++ replicate 14 85))))

abbrev pub movie : Bytes
movie = b'A' ∷ upper_mlv

abbrev pub file : Bytes
file = root ++ b'/' ∷ movie

abbrev pub disk : Disk
disk = record {
  files = λ n. elim (bytes_eq n file) [
    | true ↦ some chunk
    | false ↦ elim (bytes_eq n (root ++ b'/' ∷ b'A' ∷ b'.' ∷ b'I' ∷ b'D' ∷ b'X' ∷ [])) [
      | true ↦ some (index_bytes (row 0 0 ∷ row 52 0 ∷ row 232 1 ∷ []))
      | false ↦ none
    ]
  ];
  writable = λ n. true;
}

abbrev pub headers : FrameHeaders
headers = elim (mlv_get_frame_headers [] [] file 0 disk) [ none ↦ no_headers | some r ↦ r.1 ]

pub headers-disk : mlv_get_frame_headers [] [] file 0 disk ≡ some (true, headers, disk)
unfolding mlv_get_frame_headers get_index load_index load_loop load_chunks next_chunks with_suffix
    bytes_eq mlv_hdr read_at slice le_value le_bytes index_bytes index_hdr_bytes entry_bytes
    xref_bytes index_xrefs read_xrefs xref_at entry_count search search_entry search_vidf
    search_other read_block read_whole read_header overlay
headers-disk = refl

abbrev pub frame : Bytes
frame = dng_name (b'A' ∷ []) 0

abbrev pub path : Bytes
path = b'/' ∷ join (movie ∷ frame ∷ [])

pub path-FramePath : FramePath root file 0 path
unfolding strstr starts_with split_mlv is_mlv_file string_ends_with bytes_eq path_append dng_name
    six_digits more_digits
path-FramePath = record {
  names = movie ∷ [];
  mlv = movie ∷ [];
  base = b'A' ∷ [];
  path_lem = refl;
  file_lem = refl;
  names_lem = (
    (
      omega arith,
      (refl, (refl, (refl, (refl, (refl, tt))))),
      (refl, (refl, (refl, (refl, (refl, tt))))),
    ),
    tt,
  );
  name_lem = (
    omega arith,
    (
      refl,
      (refl, (refl, (refl, (refl, (refl, (refl, (refl, (refl, (refl, (refl, (refl, tt))))))))))),
    ),
    (
      refl,
      (refl, (refl, (refl, (refl, (refl, (refl, (refl, (refl, (refl, (refl, (refl, tt))))))))))),
    ),
  );
  shown = refl;
  split = refl;
  small = omega arith;
}
