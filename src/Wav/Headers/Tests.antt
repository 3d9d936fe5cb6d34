-- ===== src/Wav/Headers/Tests.antt =====
-- The headers for a WAV file on a disk with one chunk, whose IDX file holds its index.
use mlvfs.Base.{
  ℕ, ◌≡◌, refl, true, false, none, some, [], ◌∷◌, ◌++◌, replicate, Bytes, bytes_eq, le_value,
  le_bytes, slice, read_at, All,
}
use mlvfs.Index.Row.{FrameXref}
use mlvfs.Index.Block.{mlv_hdr, mlvi}
use mlvfs.Index.Encode.{
  index_bytes, index_hdr_bytes, entry_bytes, xref_bytes, index_xrefs, read_xrefs, xref_at,
  entry_count,
}
use mlvfs.Index.Store.{Disk, load_chunks, load_index, next_chunks, with_suffix, load_loop}
use mlvfs.Wav.Headers.{WavHeaders, wavi, audio_class, has_audio, wav_get_headers}
use mlvfs.Wav.Headers.Search.{Readable, any_wavi, wav_get_headers_lem}

abbrev row : ℕ → FrameXref
row o = record { frame_time = 0; frame_offset = o; file_number = 0; frame_type = 0 }

-- The file header, with audio, and a WAVI block.
abbrev chunk : Bytes
chunk =
    mlvi
    ++ (le_bytes 4 52
        ++ (replicate 26 0
            ++ (le_bytes 2 1 ++ (replicate 16 0 ++ (wavi ++ (le_bytes 4 32 ++ replicate 24 0))))))

abbrev index_file : Bytes
index_file = index_bytes (row 0 ∷ row 52 ∷ [])

abbrev movie : Bytes
movie = b'A' ∷ b'.' ∷ b'M' ∷ b'L' ∷ b'V' ∷ []

abbrev disk : Disk
disk = record {
  files = λ n. elim (bytes_eq n movie) [
    | true ↦ some chunk
    | false ↦ elim (bytes_eq n (b'A' ∷ b'.' ∷ b'I' ∷ b'D' ∷ b'X' ∷ [])) [
      | true ↦ some index_file
      | false ↦ none
    ]
  ];
  writable = λ n. true;
}

abbrev no_headers : WavHeaders
no_headers = record { file_hdr = []; wavi_hdr = []; rtci_hdr = []; idnt_hdr = [] }

load_chunks-disk : load_chunks movie disk ≡ some (chunk ∷ [])
unfolding load_chunks next_chunks with_suffix bytes_eq
load_chunks-disk = refl

load_index-disk : load_index movie disk ≡ some (some index_file)
unfolding load_index load_loop with_suffix bytes_eq mlv_hdr read_at slice le_value le_bytes
    index_bytes index_hdr_bytes entry_bytes xref_bytes
load_index-disk = refl

disk-Readable : All (Readable (chunk ∷ [])) (index_xrefs index_file)
unfolding read_at slice le_value le_bytes index_bytes index_hdr_bytes entry_bytes xref_bytes
    index_xrefs read_xrefs xref_at entry_count
disk-Readable = ((_, refl), ((_, refl), tt))

wav_get_headers_lem_example :
    (h : WavHeaders) × (wav_get_headers [] [] no_headers movie disk
      ≡ some (any_wavi (chunk ∷ []) (index_xrefs index_file), h, disk))
wav_get_headers_lem_example =
    wav_get_headers_lem [] [] no_headers movie disk (chunk ∷ []) index_file load_chunks-disk
      load_index-disk disk-Readable

has_audio-disk : has_audio movie disk ≡ true
unfolding has_audio audio_class read_at slice le_value le_bytes bytes_eq
has_audio-disk = refl
