-- ===== src/Wav/Headers.antt =====
-- The blocks that mlvfs/wav.c needs for the header of a WAV file: `wav_get_headers`, `has_audio`
-- and `wav_get_size`.
pub mod Search
mod Tests
use mlvfs.Base.{
  ℕ, zero, suc, ◌+◌, ◌*◌, ◌/◌, ◌%◌, ◌^◌, min, Bool, true, false, not, ◌&&◌, ◌||◌, Option, none,
  some, List, [], ◌∷◌, get_or, ◌==◌, if◌then◌else◌, Bytes, bytes_eq, le_value, slice, read_at,
}
use mlvfs.Index.Block.{mlv_hdr, mlvi, sizeof_mlv_hdr, sizeof_mlv_file_hdr}
use mlvfs.Index.Scan.{overlay}
use mlvfs.Index.Encode.{Xref, index_xrefs}
use mlvfs.Index.Store.{Disk, load_chunks, get_index, mlv_get_frame_count}
use mlvfs.Headers.{read_header, rtci, idnt, sizeof_mlv_rtci_hdr, sizeof_mlv_idnt_hdr}

abbrev pub wavi : Bytes
wavi = b'W' ∷ b'A' ∷ b'V' ∷ b'I' ∷ []

abbrev pub sizeof_mlv_wavi_hdr : ℕ
sizeof_mlv_wavi_hdr = 32

unfoldable pub audio_class : Bytes → ℕ
audio_class file_hdr = le_value (slice file_hdr 34 2)

unfoldable pub source_fps_nom : Bytes → ℕ
source_fps_nom file_hdr = le_value (slice file_hdr 44 4)

unfoldable pub source_fps_denom : Bytes → ℕ
source_fps_denom file_hdr = le_value (slice file_hdr 48 4)

unfoldable pub bytes_per_second : Bytes → ℕ
bytes_per_second wavi_hdr = le_value (slice wavi_hdr 24 4)

-- The headers that `wav_get_headers` fills in.
pub record WavHeaders : Type 0 where
  pub file_hdr : Bytes
  pub wavi_hdr : Bytes
  pub rtci_hdr : Bytes
  pub idnt_hdr : Bytes

-- The variables of its loop. `block` is the `mlv_hdr` that was read last, as its bytes.
pub record WavSearch : Type 0 where
  pub headers : WavHeaders
  pub found_file : Bool
  pub found_wavi : Bool
  pub found_rtci : Bool
  pub found_idnt : Bool
  pub block : Bytes

abbrev pub all_found : WavSearch → Bool
all_found s = s.found_file && (s.found_wavi && (s.found_rtci && s.found_idnt))

-- The first test of a round, and the others.
unfoldable pub take_file : Bytes → ℕ → WavSearch → WavSearch
take_file file position s =
    let h = mlv_hdr s.block in
    let f = s.headers in
    if bytes_eq h.block_type mlvi
    then record s {
      headers = record f { file_hdr = read_header file position sizeof_mlv_file_hdr h f.file_hdr };
      found_file = true;
    }
    else s

unfoldable pub take_wavi : Bytes → ℕ → WavSearch → WavSearch
take_wavi file position s =
    let h = mlv_hdr s.block in
    let f = s.headers in
    if bytes_eq h.block_type wavi
    then record s {
      headers = record f { wavi_hdr = read_header file position sizeof_mlv_wavi_hdr h f.wavi_hdr };
      found_wavi = true;
    }
    else s

unfoldable pub take_rtci : Bytes → ℕ → WavSearch → WavSearch
take_rtci file position s =
    let h = mlv_hdr s.block in
    let f = s.headers in
    if bytes_eq h.block_type rtci
    then record s {
      headers = record f { rtci_hdr = read_header file position sizeof_mlv_rtci_hdr h f.rtci_hdr };
      found_rtci = true;
    }
    else s

unfoldable pub take_idnt : Bytes → ℕ → WavSearch → WavSearch
take_idnt file position s =
    let h = mlv_hdr s.block in
    let f = s.headers in
    if bytes_eq h.block_type idnt
    then record s {
      headers = record f { idnt_hdr = read_header file position sizeof_mlv_idnt_hdr h f.idnt_hdr };
      found_idnt = true;
    }
    else s

-- A round of the loop. A block that cannot be read leaves the last one.
unfoldable pub wav_entry : List Bytes → Xref → WavSearch → WavSearch
wav_entry chunks x s =
    let file = get_or chunks x.file_number [] in
    let position = x.frame_offset in
    let s' = record s { block = overlay (slice file position sizeof_mlv_hdr) s.block } in
    take_idnt file position
      (take_rtci file position (take_wavi file position (take_file file position s')))

unfoldable pub wav_search : List Bytes → List Xref → WavSearch → WavSearch
wav_search chunks [] s = s
wav_search chunks (x ∷ xs) s =
    let rest = wav_search chunks xs (wav_entry chunks x s) in if all_found s then s else rest

-- The result, the headers and the disk. `headers` and `block` are what the variables held; the
-- outer `none` is out of fuel, which does not happen.
unfoldable pub wav_get_headers :
    Bytes → Bytes → WavHeaders → Bytes → Disk → Option (Bool × WavHeaders × Disk)
wav_get_headers stack block headers name d = elim (load_chunks name d) [
  | none ↦ some (false, headers, d)
  | some chunks ↦ elim (get_index stack name d) [
    | none ↦ none
    | some (none, d') ↦ some (false, headers, d')
    | some (some i, d') ↦
        let s = wav_search chunks (index_xrefs i) (record {
          headers = headers;
          found_file = false;
          found_wavi = false;
          found_rtci = false;
          found_idnt = false;
          block = block;
        }) in
        some (s.found_wavi, s.headers, d')
  ]
]

unfoldable pub has_audio : Bytes → Disk → Bool
has_audio name d = elim (d.files name) [
  | none ↦ false
  | some f ↦ elim (read_at f 0 sizeof_mlv_file_hdr) [
    | none ↦ false
    | some hdr ↦ bytes_eq (slice hdr 0 4) mlvi && (audio_class hdr == 1)
  ]
]

abbrev pub sizeof_wav_header : ℕ
sizeof_wav_header = 1690

-- The size for the headers, and for a number of frames.
unfoldable pub wav_size : WavHeaders → ℕ → ℕ
wav_size h frames =
    let nom = source_fps_nom h.file_hdr in
    let product =
      bytes_per_second h.wavi_hdr * source_fps_denom h.file_hdr % 2 ^ 64 * frames % 2 ^ 64 in
    if nom == 0 then 0 else sizeof_wav_header + product / nom

unfoldable pub wav_get_size : Bytes → Bytes → WavHeaders → Bytes → Disk → Option (ℕ × Disk)
wav_get_size stack block headers name d = elim (d.files name) [
  | none ↦ some (0, d)
  | some f ↦ elim (read_at f 0 sizeof_mlv_file_hdr) [
    | none ↦ some (0, d)
    | some hdr ↦
        let sized : Option (ℕ × Disk) =
          elim (wav_get_headers stack block (record headers { file_hdr = hdr }) name d) [
            | none ↦ none
            | some (false, h, d') ↦ some (0, d')
            | some (true, h, d') ↦
                let counted : Option (ℕ × Disk) = elim (mlv_get_frame_count stack name d') [
                  | none ↦ none
                  | some (frames, d'') ↦ some (wav_size h frames, d'')
                ] in
                if source_fps_nom h.file_hdr == 0 then some (0, d') else counted
          ] in
        if bytes_eq (slice hdr 0 4) mlvi then sized else some (0, d)
  ]
]
