-- ===== src/Gif/Size.antt =====
-- The preview of mlvfs/gif.c fits the size that `gif_get_size` promises.
use mlvfs.Base.{
  ℕ, zero, suc, ◌+◌, ◌*◌, ◌/◌, ◌%◌, ◌^◌, ◌≤◌, ◌<◌, ◌≡◌, refl, List, [], ◌∷◌, ◌++◌, Option, none,
  some, length, length-append, ◌==◌, arith, le_bytes, Bool-cases, eq_of_beq, inl, inr,
}
use native.Mathlib.Nat.{mul-le-mul_right}
use mlvfs.Gif.{
  sub_block, emit, row_pixels, pixels, gif_frame, gif_frames, gif_data, gif_get_size, gif_header,
  image_descriptor, color_table, application_block,
}

length-emit_from :
    (ps current : List ℕ)
    → length current < 125
    → length (emit current ps)
      ≡ length current + length ps + 2 * ((length current + length ps) / 125) + 4
unfolding emit sub_block
length-emit_from [] current h =
    omega (arith, length-append (current ++ 129 ∷ []) (0 ∷ []), length-append current (129 ∷ []))
length-emit_from (p ∷ ps) current h = elim (Bool-cases (length (current ++ p ∷ []) == 125)) [
  | inl e ↦
      let n = eq_of_beq (length (current ++ p ∷ [])) 125 e in
      rw e (
        omega (
          arith,
          n,
          length-append current (p ∷ []),
          length-append (current ++ p ∷ []) (emit [] ps),
          length-emit_from ps [] (omega arith),
        ))
  | inr e ↦
      let n = length-append current (p ∷ []) in
      rw e (omega (arith, n, length-emit_from ps (current ++ p ∷ []) (ground (arith, n))))
]

-- Two bytes for every full sub-block, and four at the end.
length-emit : (ps : List ℕ) → length (emit [] ps) ≡ length ps + 2 * (length ps / 125) + 4
length-emit ps = omega (arith, length-emit_from ps [] (omega arith))

length-row_pixels :
    (gamma image_data : List ℕ) (width n y x : ℕ)
    → length (row_pixels gamma image_data width n y x) ≡ n
unfolding row_pixels
length-row_pixels gamma image_data width zero y x = refl
length-row_pixels gamma image_data width (suc n) y x =
    omega (arith, length-row_pixels gamma image_data width n y (x + 1))

length-pixels :
    (gamma image_data : List ℕ) (width n y : ℕ)
    → length (pixels gamma image_data width n y) ≡ width * n
unfolding pixels
length-pixels gamma image_data width zero y = omega arith
length-pixels gamma image_data width (suc n) y = omega (
  arith,
  length-append (row_pixels gamma image_data width width y 0)
      (pixels gamma image_data width n (y + 1)),
  length-row_pixels gamma image_data width width y 0,
  length-pixels gamma image_data width n (y + 1),
)

abbrev frame_length : ℕ → ℕ
frame_length n = 19 + (n + 2 * (n / 125) + 4)

length-gif_frame :
    (gamma : List ℕ) (width height : ℕ) (image_data : List ℕ)
    → length (gif_frame gamma width height image_data) ≡ frame_length (width * height)
unfolding gif_frame image_descriptor le_bytes
length-gif_frame gamma width height image_data =
    let n : length (pixels gamma image_data width height 0) ≡ width * height =
      length-pixels gamma image_data width height 0 in
    let e = rw n at (length-emit (pixels gamma image_data width height 0)) in omega (arith, e)

length-gif_frames :
    (gamma : List ℕ) (width height : ℕ) (images : List (Option (List ℕ)))
    → length (gif_frames gamma width height images) ≤ length images * frame_length (width * height)
unfolding gif_frames
length-gif_frames gamma width height [] = omega arith
length-gif_frames gamma width height (none ∷ is) =
    omega (arith, length-gif_frames gamma width height is)
length-gif_frames gamma width height (some i ∷ is) = omega (
  arith,
  length-append (gif_frame gamma width height i) (gif_frames gamma width height is),
  length-gif_frame gamma width height i,
  length-gif_frames gamma width height is,
)

length-gif_header : (width height : ℕ) → length (gif_header width height) ≡ 397
unfolding gif_header le_bytes color_table
length-gif_header width height = refl

module _ (gamma : List ℕ) (x_res y_res : ℕ) (images : List (Option (List ℕ))) where
  width : ℕ
  width = x_res / 4 % 2 ^ 16

  height : ℕ
  height = y_res / 4 % 2 ^ 16

  length-gif_data :
      length (gif_data gamma width height images)
      ≡ 417 + length (gif_frames gamma width height images)
  unfolding gif_data
  length-gif_data =
      let frames = gif_frames gamma width height images in
      omega (
        arith,
        length-append (gif_header width height) (application_block ++ (frames ++ 59 ∷ [])),
        length-append application_block (frames ++ 59 ∷ []),
        length-append frames (59 ∷ []),
        length-gif_header width height,
      )

  -- The file of at most ten frames fits the size that gif_get_size promises for the recording's
  -- resolution, which is what is allocated for it.
  pub gif_data-fits :
      length images ≤ 10
      → length (gif_data gamma (x_res / 4 % 2 ^ 16) (y_res / 4 % 2 ^ 16) images)
        ≤ gif_get_size x_res y_res
  unfolding gif_get_size width height
  gif_data-fits few =
      let f = frame_length (width * height) in
      let m : length images * f ≤ 10 * f = mul-le-mul_right f few in
      omega (arith, length-gif_data, length-gif_frames gamma width height images, m)
