-- ===== src/FrameNumber/Tests.antt =====
-- The names of DNG files of mlvfs/main.c for some frames.
use mlvfs.Base.{◌≡◌, refl, [], ◌∷◌, ◌++◌, Bytes, slice, arith}
use mlvfs.FrameNumber.{
  plus, atoi, atoi_digits, last_dot, get_mlv_frame_number, dng_name, get_mlv_frame_number-dng_name,
}

abbrev name : Bytes
name = b'M' ∷ b'.' ∷ b'1' ∷ []

-- Frame 1000000 is listed with seven digits, of which the last six are parsed.
get_mlv_frame_number-seven :
    get_mlv_frame_number (
      name
      ++ b'_' ∷ b'1' ∷ b'0' ∷ b'0' ∷ b'0' ∷ b'0' ∷ b'0' ∷ b'0' ∷ b'.' ∷ b'd' ∷ b'n' ∷ b'g' ∷ [])
    ≡ plus 0
unfolding get_mlv_frame_number last_dot atoi atoi_digits slice
get_mlv_frame_number-seven = refl

get_mlv_frame_number-dng_name_example : get_mlv_frame_number (dng_name name 1204) ≡ plus 1204
get_mlv_frame_number-dng_name_example = get_mlv_frame_number-dng_name name 1204 (omega arith)
