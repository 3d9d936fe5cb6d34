-- ===== src/Unpack/Compressed.antt =====
-- `get_image_data` of mlvfs/main.c with its branches for compressed frames. Offsets are not
-- negative, and memory is at hand.
use mlvfs.Base.{
  ℕ, zero, suc, ◌+◌, ◌-◌, ◌*◌, ◌/◌, ◌%◌, Bool, ◌||◌, Option, none, some, List, ◌++◌, length,
  replicate, drop, get_elem?, ltb, ◌==◌, if◌then◌else◌, Bytes, le_value, le_bytes, slice, write_at,
}
use mlvfs.Headers.{FrameHeaders, sizeof_mlv_vidf_hdr}
use mlvfs.Unpack.{StoredFrame, words_of, dng_get_image_data, get_image_data}

-- The decoders, which are libraries: LZMA, given the properties, the data and the size of the
-- result; `lj92_open`, for the width and the height; and `lj92_decode`. `none` is an error. What
-- stands in memory behind the decoded words is `behind_decoded`, where the memory can be read at all.
pub record Decoders : Type 0 where
  pub lzma_uncompress : Bytes → Bytes → ℕ → Option Bytes
  pub lj92_open : Bytes → Option (ℕ × ℕ)
  pub lj92_decode : Bytes → ℕ → Option (List ℕ)
  pub behind_decoded : ℕ → ℕ

unfoldable pub video_class : FrameHeaders → ℕ
video_class h = le_value (slice h.file_hdr 32 2)

abbrev pub lzma_compressed : FrameHeaders → Bool
lzma_compressed h = video_class h / 128 % 2 == 1

abbrev pub lj92_compressed : FrameHeaders → Bool
lj92_compressed h = video_class h / 256 % 2 == 1

abbrev pub stored_frame : FrameHeaders → StoredFrame
stored_frame h = record {
  position = h.position;
  frame_space = le_value (slice h.vidf_hdr 28 4);
  bits_per_pixel = le_value (slice h.rawi_hdr 44 4);
}

-- Where line or column `i` of a tiled picture goes: first the even ones, then the odd ones.
unfoldable pub untile_index : ℕ → ℕ → ℕ
untile_index n i = 2 * i % n + 2 * i / n

-- The pixel `k` of a buffer of 16-bit words.
unfoldable pub put_pixel : Bytes → ℕ → ℕ → Bytes
put_pixel buf k v = write_at buf (2 * k) (le_bytes 2 v)

-- The inner loop from column `x`, with `n` columns left. The source is what its pointer reads.
unfoldable pub untile_line : ℕ → (ℕ → ℕ) → ℕ → ℕ → ℕ → ℕ → Bytes → Bytes
untile_line x_size src src_start dst_start x zero dst = dst
untile_line x_size src src_start dst_start x (suc n) dst =
    untile_line x_size src src_start dst_start (x + 1) n
      (put_pixel dst (dst_start + untile_index x_size x) (src (src_start + x)))

-- The outer loop from line `y`, with `n` lines left.
unfoldable pub untile_lines : ℕ → ℕ → (ℕ → ℕ) → ℕ → ℕ → Bytes → Bytes
untile_lines x_size y_size src y zero dst = dst
untile_lines x_size y_size src y (suc n) dst =
    untile_lines x_size y_size src (y + 1) n
      (untile_line x_size src (y * x_size) (untile_index y_size y * x_size) 0 x_size dst)

-- The stored frame behind its header. What a short read leaves reads 0 here.
unfoldable pub read_stored_frame : FrameHeaders → Bytes → ℕ → Bytes
read_stored_frame h file frame_size =
    let f = stored_frame h in
    let got = slice file (f.position + f.frame_space + sizeof_mlv_vidf_hdr) frame_size in
    got ++ replicate (frame_size - length got) 0

module _ (decoders : Decoders) where
  -- The word `i` behind the pointer to the decoded words.
  unfoldable pub decoded_word : List ℕ → ℕ → ℕ
  decoded_word decompressed i = elim (get_elem? decompressed i) [
    | none ↦ decoders.behind_decoded i % 65536
    | some v ↦ v
  ]

  unfoldable pub lzma_image_data : FrameHeaders → Bytes → Bytes → ℕ → ℕ → ℕ × Bytes
  lzma_image_data h frame_buffer output_buffer offset max_size =
      let lzma_out_size = le_value (slice frame_buffer 0 4) in
      elim (decoders.lzma_uncompress (slice frame_buffer 4 5) (drop 9 frame_buffer) lzma_out_size) [
        | none ↦ (0, output_buffer)
        | some lzma_out ↦ (
          max_size,
          dng_get_image_data (stored_frame h).bits_per_pixel
              (words_of (length lzma_out / 2) lzma_out) output_buffer offset max_size,
        )
      ]

  -- The result stays 0.
  unfoldable pub lj92_image_data : FrameHeaders → Bytes → Bytes → ℕ × Bytes
  lj92_image_data h frame_buffer output_buffer =
      let stream = drop 4 frame_buffer in
      let x_size = le_value (slice h.rawi_hdr 16 2) in
      let y_size = le_value (slice h.rawi_hdr 18 2) in
      elim (decoders.lj92_open stream) [
        | none ↦ (0, output_buffer)
        | some (width, height) ↦ elim (decoders.lj92_decode stream (width * height)) [
          | none ↦ (0, output_buffer)
          | some decompressed ↦
              (0, untile_lines x_size y_size (decoded_word decompressed) 0 y_size output_buffer)
        ]
      ]

  -- The result and the buffer. A block that is smaller than its headers gives a size for which
  -- there is no memory.
  unfoldable pub get_frame_data : FrameHeaders → Bytes → Bytes → ℕ → ℕ → ℕ × Bytes
  get_frame_data h file output_buffer offset max_size =
      let f = stored_frame h in
      let block_size = le_value (slice h.vidf_hdr 4 4) in
      let headers_size = f.frame_space + sizeof_mlv_vidf_hdr in
      let frame_buffer = read_stored_frame h file (block_size - headers_size) in
      if lzma_compressed h || lj92_compressed h
      then (if ltb block_size headers_size
          then (0, output_buffer)
          else if lzma_compressed h
          then lzma_image_data h frame_buffer output_buffer offset max_size
          else lj92_image_data h frame_buffer output_buffer)
      else get_image_data f file output_buffer offset max_size
