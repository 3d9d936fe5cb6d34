-- ===== src/Gif.antt =====
-- The animated preview of mlvfs/gif.c: its bytes and the size that is promised for them.
pub mod Size
pub mod Decode
mod Tests
use mlvfs.Base.{
  ℕ, zero, suc, ◌+◌, ◌-◌, ◌*◌, ◌/◌, ◌%◌, ◌^◌, List, [], ◌∷◌, ◌++◌, Option, none, some, length,
  get_or, ◌==◌, if◌then◌else◌, Bytes, le_bytes,
}

abbrev pub lzw_cc : ℕ
lzw_cc = 128

abbrev pub lzw_eoi : ℕ
lzw_eoi = 129

abbrev pub sub_block_size : ℕ
sub_block_size = 126

abbrev pub downscale : ℕ
downscale = 4

-- `gif_animation_application_block` and `gif_animation_graphics_block`.
abbrev pub application_block : Bytes
application_block =
    33 ∷ 255 ∷ 11 ∷ 78 ∷ 69 ∷ 84 ∷ 83 ∷ 67 ∷ 65 ∷ 80 ∷ 69 ∷ 50 ∷ 46 ∷ 48 ∷ 3 ∷ 1 ∷ 0 ∷ 0 ∷ 0 ∷ []

abbrev pub graphics_block : Bytes
graphics_block = 33 ∷ 249 ∷ 4 ∷ 0 ∷ 50 ∷ 0 ∷ 0 ∷ 0 ∷ []

-- The greyscale table: `n` colours from `color`, which is kept on 8 bits.
unfoldable pub color_table : ℕ → ℕ → Bytes
color_table zero color = []
color_table (suc n) color = color ∷ color ∷ color ∷ color_table n ((color + 2) % 256)

-- `struct gif_header`.
unfoldable pub gif_header : ℕ → ℕ → Bytes
gif_header width height =
    b'G'
    ∷ b'I'
    ∷ b'F'
    ∷ b'8'
    ∷ b'9'
    ∷ b'a'
    ∷ (le_bytes 2 width ++ (le_bytes 2 height ++ (246 ∷ 0 ∷ 0 ∷ color_table 128 0)))

-- `struct gif_image_descriptor`.
unfoldable pub image_descriptor : ℕ → ℕ → Bytes
image_descriptor width height =
    44 ∷ (le_bytes 2 0 ++ (le_bytes 2 0 ++ (le_bytes 2 width ++ (le_bytes 2 height ++ 0 ∷ 7 ∷ []))))

-- What is read for a pixel. `gamma` is the table of 1024 values that is computed in floating
-- point; an index out of bounds reads 0 here and anything in the source.
unfoldable pub pixel : List ℕ → List ℕ → ℕ → ℕ → ℕ → ℕ
pixel gamma image_data width y x =
    get_or gamma (get_or image_data (y * downscale * width * downscale + x * downscale + 1) 0 / 16)
      0

-- `n` pixels of row `y` from column `x`, and `n` rows from row `y`.
unfoldable pub row_pixels : List ℕ → List ℕ → ℕ → ℕ → ℕ → ℕ → List ℕ
row_pixels gamma image_data width zero y x = []
row_pixels gamma image_data width (suc n) y x =
    pixel gamma image_data width y x ∷ row_pixels gamma image_data width n y (x + 1)

unfoldable pub pixels : List ℕ → List ℕ → ℕ → ℕ → ℕ → List ℕ
pixels gamma image_data width zero y = []
pixels gamma image_data width (suc n) y =
    row_pixels gamma image_data width width y 0 ++ pixels gamma image_data width n (y + 1)

-- A sub-block with its size and the clear code in front of `codes`.
unfoldable pub sub_block : List ℕ → Bytes
sub_block codes = (length codes + 1) ∷ lzw_cc ∷ codes

-- The loops over the pixels that are left, and what follows them. `current` is the content of
-- `current_sub_block` behind the clear code, so that its length is `sub_block_position`.
unfoldable pub emit : List ℕ → List ℕ → Bytes
emit current [] = sub_block (current ++ lzw_eoi ∷ []) ++ 0 ∷ []
emit current (p ∷ ps) =
    let current' = current ++ p ∷ [] in
    let full = sub_block current' ++ emit [] ps in
    let on = emit current' ps in if length current' == sub_block_size - 1 then full else on

unfoldable pub gif_frame : List ℕ → ℕ → ℕ → List ℕ → Bytes
gif_frame gamma width height image_data =
    graphics_block
    ++ (image_descriptor width height ++ emit [] (pixels gamma image_data width height 0))

-- The frames; one whose headers cannot be read is left out.
unfoldable pub gif_frames : List ℕ → ℕ → ℕ → List (Option (List ℕ)) → Bytes
gif_frames gamma width height [] = []
gif_frames gamma width height (none ∷ is) = gif_frames gamma width height is
gif_frames gamma width height (some i ∷ is) =
    gif_frame gamma width height i ++ gif_frames gamma width height is

-- The whole file, from the image data of its frames.
unfoldable pub gif_data : List ℕ → ℕ → ℕ → List (Option (List ℕ)) → Bytes
gif_data gamma width height images =
    gif_header width height
    ++ (application_block ++ (gif_frames gamma width height images ++ 59 ∷ []))

-- `gif_get_size` for a picture of this width and height.
unfoldable pub gif_get_size : ℕ → ℕ → ℕ
gif_get_size x_res y_res =
    let width = x_res / downscale % 2 ^ 16 in
    let height = y_res / downscale % 2 ^ 16 in
    let pixels = width * height + 1 in
    let lzw_overhead = (pixels / (sub_block_size - 1) + 1) * 2 in
    (397 + 19) + 10 * ((8 + 11) + pixels + lzw_overhead + 1) + 1
