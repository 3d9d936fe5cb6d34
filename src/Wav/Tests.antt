-- ===== src/Wav/Tests.antt =====
-- The reads of mlvfs/wav.c over two blocks of sound with a frame between them.
use mlvfs.Base.{
  ℕ, ◌≡◌, refl, ◌++◌, ◌∷◌, [], some, List, Bytes, bytes_eq, arith, drop, le_value, le_bytes, slice,
  replicate, write_at,
}
use mlvfs.Index.Block.{audf, vidf}
use mlvfs.Index.Scan.{overlay}
use mlvfs.Index.Encode.{Xref}
use mlvfs.Wav.{
  audf_block_size, frame_space, deliver, read_frame, frame_round, wav_round, wav_rounds, pad,
  rest_of, wav_get_data_direct,
}
use mlvfs.Wav.Round.{IsFrame, audio}
use mlvfs.Wav.Read.{wav_get_data_direct_lem}

abbrev block : Bytes → ℕ → ℕ → Bytes → Bytes
block type size space rest =
    type ++ (le_bytes 4 size ++ (replicate 12 0 ++ (le_bytes 4 space ++ rest)))

-- Two bytes of space and three of sound, a frame, and two bytes of sound.
abbrev chunk : Bytes
chunk =
    block audf 29 2 (0 ∷ 0 ∷ 1 ∷ 2 ∷ 3 ∷ []) ++ (block vidf 24 0 [] ++ block audf 26 0 (4 ∷ 5 ∷ []))

abbrev entry : ℕ → ℕ → Xref
entry type offset = record { file_number = 0; frame_type = type; frame_offset = offset }

abbrev entries : List Xref
entries = entry 2 0 ∷ entry 1 29 ∷ entry 2 53 ∷ []

abbrev header : Bytes
header = 90 ∷ 91 ∷ 92 ∷ []

abbrev buffer : Bytes
buffer = replicate 9 7

-- A read across the header and both blocks of sound.
wav_get_data_direct-chunk :
    wav_get_data_direct header (chunk ∷ []) entries [] buffer 2 5
    ≡ some (92 ∷ 1 ∷ 2 ∷ 3 ∷ 4 ∷ 7 ∷ 7 ∷ 7 ∷ 7 ∷ [])
unfolding wav_get_data_direct rest_of pad wav_rounds wav_round frame_round read_frame deliver
    audf_block_size frame_space overlay slice write_at le_value le_bytes bytes_eq
wav_get_data_direct-chunk = refl

-- A read behind the end: the buffer's last bytes are not cleared.
wav_get_data_direct-end :
    wav_get_data_direct header (chunk ∷ []) entries [] buffer 4 9
    ≡ some (2 ∷ 3 ∷ 4 ∷ 5 ∷ 0 ∷ 7 ∷ 7 ∷ 7 ∷ 7 ∷ [])
unfolding wav_get_data_direct rest_of pad wav_rounds wav_round frame_round read_frame deliver
    audf_block_size frame_space overlay slice write_at le_value le_bytes bytes_eq
wav_get_data_direct-end = refl

first-IsFrame : IsFrame chunk (entry 2 0)
unfolding audf_block_size frame_space slice le_value le_bytes bytes_eq
first-IsFrame = record { type = refl; room = omega arith; whole = omega arith }

last-IsFrame : IsFrame chunk (entry 2 53)
unfolding audf_block_size frame_space slice le_value le_bytes bytes_eq
last-IsFrame = record { type = refl; room = omega arith; whole = omega arith }

wav_get_data_direct_lem_example :
    wav_get_data_direct header (chunk ∷ []) entries [] buffer 2 5
    ≡ some (slice (header ++ audio (chunk ∷ []) entries) 2 5 ++ drop 5 buffer)
unfolding audf_block_size frame_space slice le_value le_bytes
wav_get_data_direct_lem_example =
    wav_get_data_direct_lem header (chunk ∷ []) entries [] buffer 2 5
      ((λ e. first-IsFrame), ((λ e. absurd (ground (arith, e))), ((λ e. last-IsFrame), tt)))
      (omega arith)
