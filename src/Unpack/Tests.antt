-- ===== src/Unpack/Tests.antt =====
-- The unpacking of mlvfs/dng.c and mlvfs/main.c on two pixels of 14 bits.
use mlvfs.Base.{
  ℕ, zero, suc, ◌<◌, ◌≡◌, refl, inr, [], ◌∷◌, ◌++◌, replicate, arith, Bytes, All-append, write_at,
  slice, le_value, le_bytes,
}
use mlvfs.Unpack.{
  StoredFrame, ror, fetch_pixel, unpack_pixel, unpack_pixels, words_of, bytes_of, read_packed,
  packed_size, dng_get_image_data, get_image_data,
}
use mlvfs.Unpack.Image.{IsBytes, frame_pixels, get_image_data_lem}

abbrev frame : StoredFrame
frame = record { position = 0; frame_space = 0; bits_per_pixel = 14 }

-- The words 0x0201, 0x0403 and 0x0605 behind a header.
abbrev file : Bytes
file = replicate 32 0 ++ 1 ∷ 2 ∷ 3 ∷ 4 ∷ 5 ∷ 6 ∷ []

replicate-IsBytes : (n : ℕ) → IsBytes (replicate n 0)
replicate-IsBytes zero = tt
replicate-IsBytes (suc n) = (omega arith, replicate-IsBytes n)

file-IsBytes : IsBytes file
file-IsBytes =
    All-append (λ (b : ℕ). b < 256) (replicate 32 0) (1 ∷ 2 ∷ 3 ∷ 4 ∷ 5 ∷ 6 ∷ [])
      (replicate-IsBytes 32)
      (omega arith, (omega arith, (omega arith, (omega arith, (omega arith, (omega arith, tt))))))

get_image_data_lem_example :
    get_image_data frame file (replicate 4 0) 0 4
    ≡ (4, write_at (replicate 4 0) 0 (bytes_of (frame_pixels 14 file 32 0 2)))
unfolding packed_size
get_image_data_lem_example =
    get_image_data_lem frame file (replicate 4 0) 0 2 (inr refl) file-IsBytes (omega arith)
      (omega arith) (omega arith)

-- 0x0201 and 0x0403 are 00000010000000 0100000100000000 and so on: the pixels are 128 and 4160.
get_image_data-frame : get_image_data frame file (replicate 4 0) 0 4 ≡ (4, 128 ∷ 0 ∷ 64 ∷ 16 ∷ [])
unfolding get_image_data dng_get_image_data read_packed packed_size words_of bytes_of unpack_pixels
    unpack_pixel fetch_pixel ror write_at slice le_value le_bytes
get_image_data-frame = refl
