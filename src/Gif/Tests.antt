-- ===== src/Gif/Tests.antt =====
-- The preview of mlvfs/gif.c on small pictures.
use mlvfs.Base.{
  ℕ, ◌+◌, ◌/◌, ◌%◌, ◌^◌, ◌≤◌, ◌≡◌, refl, List, [], ◌∷◌, Option, none, some, length, replicate,
  arith, Bytes,
}
use mlvfs.Gif.{emit, sub_block, pixels, row_pixels, pixel, gif_data, gif_get_size}
use mlvfs.Gif.Size.{gif_data-fits}
use mlvfs.Gif.Decode.{unblock, decode, decode-emit}

emit-two : emit [] (5 ∷ 6 ∷ []) ≡ 4 ∷ 128 ∷ 5 ∷ 6 ∷ 129 ∷ 0 ∷ []
unfolding emit sub_block
emit-two = refl

-- Columns 1 and 5 of the first of four rows of eight pixels.
pixels-row : pixels (0 ∷ 10 ∷ 20 ∷ []) (0 ∷ 16 ∷ 0 ∷ 0 ∷ 0 ∷ 32 ∷ 0 ∷ 0 ∷ []) 2 1 0 ≡ 10 ∷ 20 ∷ []
unfolding pixels row_pixels pixel
pixels-row = refl

abbrev images : List (Option (List ℕ))
images = some (replicate 32 16) ∷ none ∷ some (replicate 32 32) ∷ []

gif_data-fits_example :
    length (gif_data (0 ∷ 10 ∷ 20 ∷ []) (8 / 4 % 2 ^ 16) (4 / 4 % 2 ^ 16) images) ≤ gif_get_size 8 4
gif_data-fits_example = gif_data-fits (0 ∷ 10 ∷ 20 ∷ []) 8 4 images (omega arith)

abbrev two : List ℕ
two = 5 ∷ 127 ∷ []

decode-emit_example :
    (bs : Bytes) × (unblock (2 + length two) (emit [] two) ≡ some bs) × (decode 0 bs ≡ some two)
decode-emit_example = decode-emit two (omega arith, (omega arith, tt))
