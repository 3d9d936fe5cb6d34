-- ===== src/Wav.antt =====
-- The reads of the virtual WAV file of mlvfs/wav.c: `wav_get_data_direct` and the clamp of the
-- range in `wav_get_data`.
pub mod Headers
pub mod File
pub mod Round
pub mod Delivered
pub mod Read
mod Tests
use mlvfs.Base.{
  ℕ, zero, suc, ◌+◌, ◌-◌, min, Bool, true, false, Option, none, some, List, [], ◌∷◌, ◌++◌, length,
  drop, replicate, get_or, ltb, leb, ◌==◌, if◌then◌else◌, Bytes, bytes_eq, le_value, slice,
  write_at,
}
use mlvfs.Index.Block.{audf, mlv_frame_audf}
use mlvfs.Index.Scan.{overlay}
use mlvfs.Index.Encode.{Xref}

-- `mlv_audf_hdr_t`, 24 bytes.
abbrev pub sizeof_mlv_audf_hdr : ℕ
sizeof_mlv_audf_hdr = 24

unfoldable pub audf_block_size : Bytes → ℕ
audf_block_size hdr = le_value (slice hdr 4 4)

unfoldable pub frame_space : Bytes → ℕ
frame_space hdr = le_value (slice hdr 20 4)

-- The output buffer and the variables `output_position`, `read_offset` and `remaining`.
pub record Progress : Type 0 where
  pub output : Bytes
  pub output_position : ℕ
  pub read_offset : ℕ
  pub remaining : ℕ

-- The copy of `n` bytes to the output, and the three updates after it.
unfoldable pub deliver : Bytes → ℕ → Progress → Progress
deliver bs n p = record {
  output = write_at p.output p.output_position bs;
  output_position = p.output_position + n;
  read_offset = p.read_offset + n;
  remaining = p.remaining - n;
}

-- The part of a frame that is read, where its data of `size` bytes stands at `position`.
unfoldable pub read_frame : Bytes → ℕ → ℕ → ℕ → Progress → Progress
read_frame file position size audio_position p =
    let this_offset = p.read_offset - audio_position in
    let this_size = min (size - this_offset) p.remaining in
    deliver (slice file (position + this_offset) this_size) this_size p

-- One round of the loop: `audf_hdr`, `audio_position` and the progress after it, or the progress
-- with which the loop is left. A frame smaller than its header has a negative size in the
-- source, which is not modelled: it is `fault`.
pub data Step : Type 0 where
  next : Bytes → ℕ → Progress → Step
  done : Progress → Step
  fault : Step

unfoldable pub frame_round : Bytes → ℕ → Bytes → ℕ → Progress → Step
frame_round file position hdr audio_position p =
    let header = sizeof_mlv_audf_hdr + frame_space hdr in
    let size = audf_block_size hdr - header in
    let p' = read_frame file (position + header) size audio_position p in
    if ltb (audf_block_size hdr) header
    then fault
    else if leb p.read_offset (audio_position + size)
    then (if p'.remaining == 0 then done p' else next hdr (audio_position + size) p')
    else next hdr (audio_position + size) p

-- A header that cannot be read whole overwrites the start of the last one.
unfoldable pub wav_round : List Bytes → Xref → Bytes → ℕ → Progress → Step
wav_round chunks x hdr audio_position p =
    let file = get_or chunks x.file_number [] in
    let hdr' = overlay (slice file x.frame_offset sizeof_mlv_audf_hdr) hdr in
    if x.frame_type == mlv_frame_audf
    then if bytes_eq (slice hdr' 0 4) audf
      then frame_round file x.frame_offset hdr' audio_position p
      else next hdr' audio_position p
    else next hdr audio_position p

unfoldable pub wav_rounds : List Bytes → List Xref → Bytes → ℕ → Progress → Option Progress
wav_rounds chunks [] hdr audio_position p = some p
wav_rounds chunks (x ∷ xs) hdr audio_position p = elim (wav_round chunks x hdr audio_position p) [
  | next hdr' audio_position' p' ↦ wav_rounds chunks xs hdr' audio_position' p'
  | done p' ↦ some p'
  | fault ↦ none
]

-- The `memset` at the end.
unfoldable pub pad : Progress → Bytes
pad p =
    if ltb p.output_position p.remaining
    then write_at p.output p.output_position (replicate (p.remaining - p.output_position) 0)
    else p.output

-- What follows the header: the loop and the `memset`.
unfoldable pub rest_of : List Bytes → List Xref → Bytes → Progress → Option Bytes
rest_of chunks xrefs stack p = elim (wav_rounds chunks xrefs stack 0 p) [
  | none ↦ none
  | some q ↦ some (pad q)
]

-- `header` is the `struct wav_header` of the file, `stack` what `audf_hdr` holds at first.
unfoldable pub wav_get_data_direct :
    Bytes → List Bytes → List Xref → Bytes → Bytes → ℕ → ℕ → Option Bytes
wav_get_data_direct header chunks xrefs stack output offset n =
    let p : Progress = record {
      output = output;
      output_position = 0;
      read_offset = offset;
      remaining = n;
    } in
    let this_size = min (length header - offset) n in
    let p' =
      if ltb offset (length header)
      then deliver (slice header offset this_size) this_size p
      else p in
    let audio =
      rest_of chunks xrefs stack (record p' { read_offset = p'.read_offset - length header }) in
    if p'.remaining == 0 then some p'.output else audio

-- `wav_get_data` over a file of `size` bytes that has its headers and its index.
unfoldable pub wav_get_data :
    Bytes → List Bytes → List Xref → Bytes → ℕ → Bytes → ℕ → ℕ → Option Bytes
wav_get_data header chunks xrefs stack size output offset max_size =
    let read_offset = min offset size in
    wav_get_data_direct header chunks xrefs stack output read_offset
      (min max_size (size - read_offset))
