-- ===== src/Render/Whole.antt =====
-- The headers and the images that `process_frame` of mlvfs/main.c makes keep their sizes.
use mlvfs.Base.{
  ℕ, zero, suc, ◌+◌, ◌*◌, ◌/◌, ◌%◌, ◌<◌, ◌≡◌, inl, inr, refl, ap, Bool, false, List, [], ◌∷◌,
  length, length-append, arith, Bytes, Bool-cases, Option-cases, length-write_at, length-le_bytes,
  slice, write_at-IsBytes, le_bytes-IsBytes, le_bytes, All-append, drop, le_value, ltb,
}
use mlvfs.Headers.{FrameHeaders, sizeof_mlv_vidf_hdr}
use mlvfs.Unpack.{words_of, bytes_of, unpack_pixels, dng_get_image_data, get_image_data}
use mlvfs.Unpack.Compressed.{
  Decoders, stored_frame, lzma_compressed, lj92_compressed, lzma_image_data, get_frame_data,
}
use mlvfs.Dng.Header.{camera_model, lens_name}
use mlvfs.Dng.Writable.{IsReadable}
use mlvfs.Render.{Filters, deflicker}

-- Filters that keep the size of an image, and headers that can be read.
pub record KeepSizes (f : Filters) : Type 0 where
  pub uninitialised : (n : ℕ) → length (f.uninitialised n) ≡ n
  pub pattern_noise : (h : FrameHeaders) (d : Bytes) → length (f.fix_pattern_noise h d) ≡ length d
  pub hdr_convert :
      (h : FrameHeaders) (d : Bytes)
      → IsReadable h
      → IsReadable (f.hdr_convert_data h d).1 × (length (f.hdr_convert_data h d).2 ≡ length d)
  pub cr2hdr20 :
      (h : FrameHeaders) (d : Bytes)
      → IsReadable h
      → IsReadable (f.cr2hdr20_convert_data h d).1
        × (length (f.cr2hdr20_convert_data h d).2 ≡ length d)
  pub focus_pixels : (h : FrameHeaders) (d : Bytes) → length (f.fix_focus_pixels h d) ≡ length d
  pub bad_pixels :
      (h : FrameHeaders) (d : Bytes) (b : Bool) → length (f.fix_bad_pixels h d b) ≡ length d
  pub smoothing : (h : FrameHeaders) (d : Bytes) (n : ℕ) → length (f.chroma_smooth h d n) ≡ length d

pub length-bytes_of : (ws : List ℕ) → length (bytes_of ws) ≡ 2 * length ws
unfolding bytes_of
length-bytes_of [] = refl
length-bytes_of (w ∷ ws) =
    omega
      (arith, length-append (le_bytes 2 w) (bytes_of ws), length-le_bytes 2 w, length-bytes_of ws)

pub length-words_of : (n : ℕ) (bs : Bytes) → length (words_of n bs) ≡ n
unfolding words_of
length-words_of zero bs = refl
length-words_of (suc n) bs = ap suc (length-words_of n _)

length-unpack_pixels :
    (bpp a : ℕ) (packed : List ℕ) (i n : ℕ) → length (unpack_pixels bpp a packed i n) ≡ n
unfolding unpack_pixels
length-unpack_pixels bpp a packed i zero = refl
length-unpack_pixels bpp a packed i (suc n) = ap suc (length-unpack_pixels bpp a packed (i + 1) n)

length-dng_get_image_data :
    (bpp : ℕ) (packed : List ℕ) (out : Bytes)
    → length (dng_get_image_data bpp packed out 0 (length out)) ≡ length out
unfolding dng_get_image_data
length-dng_get_image_data bpp packed out =
    let n = length out / 2 in
    let ws =
      unpack_pixels bpp (0 % 4294967296 / 2 * bpp % 4294967296 / 16) packed (0 % 4294967296 / 2)
        n in
    length-write_at out 0 (bytes_of ws)
      (omega (arith, length-bytes_of ws, length-unpack_pixels bpp _ packed _ n))

lzma_image_data_kept :
    (decoders : Decoders) (h : FrameHeaders) (frame_buffer out : Bytes)
    → length (lzma_image_data decoders h frame_buffer out 0 (length out)).1 ≡ length out
unfolding lzma_image_data
lzma_image_data_kept decoders h frame_buffer out =
    elim (Option-cases (
      decoders.lzma_uncompress (slice frame_buffer 4 5) (drop 9 frame_buffer)
        (le_value (slice frame_buffer 0 4)))) [
          | inl e ↦ rw (lzma_image_data, e) refl
          | inr (d, e) ↦ rw (lzma_image_data, e) (length-dng_get_image_data _ _ out)
        ]

-- The raw image of a frame that is not lossless JPEG fills its buffer.
pub get_frame_data_kept :
    (decoders : Decoders) (h : FrameHeaders) (file out : Bytes) (n : ℕ)
    → lj92_compressed h ≡ false
    → length out ≡ n
    → length (get_frame_data decoders h file out 0 n).1 ≡ n
unfolding get_frame_data
get_frame_data_kept decoders h file out n not_lj92 l = elim (Bool-cases (lzma_compressed h)) [
  | inl e ↦
      elim (Bool-cases (
        ltb (le_value (slice h.vidf_hdr 4 4))
          ((stored_frame h).frame_space + sizeof_mlv_vidf_hdr))) [
            | inl small ↦ rw (e, small) l
            | inr whole ↦ rw (e, whole, ← l) (lzma_image_data_kept decoders h _ out)
          ]
  | inr e ↦ rw (e, not_lj92, ← l) (unfold get_image_data in length-dng_get_image_data _ _ out)
]

pub deflicker-IsReadable :
    (f : Filters) (h : FrameHeaders) (target : ℕ) (d : Bytes)
    → IsReadable h
    → IsReadable (deflicker f h target d)
unfolding deflicker camera_model lens_name
deflicker-IsReadable f h target d r = record {
  vidf_bytes = r.vidf_bytes;
  idnt_bytes = r.idnt_bytes;
  rawi_bytes = write_at-IsBytes h.rawi_hdr 88 _ r.rawi_bytes (
      All-append (λ (b : ℕ). b < 256) (le_bytes 4 _) (le_bytes 4 10000) (le_bytes-IsBytes 4 _)
        (le_bytes-IsBytes 4 10000));
  expo_bytes = r.expo_bytes;
  lens_bytes = r.lens_bytes;
  model_ends = r.model_ends;
  lens_ends = r.lens_ends;
}
