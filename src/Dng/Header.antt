-- ===== src/Dng/Header.antt =====
-- `dng_get_header_data` of mlvfs/dng.c: the header of a DNG file. Offsets are not negative. Sums
-- of C's integers are written with their wrap-around.
use mlvfs.Base.{
  ℕ, ◌+◌, ◌*◌, ◌/◌, ◌%◌, ◌^◌, Bool, false, ◌&&◌, ◌||◌, Option, none, some, List, [], ◌∷◌, ◌++◌,
  take, ltb, ◌==◌, if◌then◌else◌, Bytes, le_value, le_bytes, write_at, slice,
}
use mlvfs.Headers.{FrameHeaders}
use mlvfs.FrameNumber.{more_digits}
use mlvfs.Getattr.{x_res, y_res, elapsed}
use mlvfs.Wav.Headers.{source_fps_nom, source_fps_denom}
use mlvfs.Dng.Integers.{sub_int, int_below, int_at_most, is_negative, above_twice}
use mlvfs.Dng.Focal.{camera_focal_resolutions, first_focal_resolution, find_focal_resolution}

-- A string of C, up to its terminator.
unfoldable pub c_string : Bytes → Bytes
c_string [] = []
c_string (b ∷ bs) = let rest = c_string bs in if b == 0 then [] else b ∷ rest

unfoldable pub first_word : Bytes → Bytes
first_word [] = []
first_word (b ∷ bs) = let rest = first_word bs in if b == b' ' then [] else b ∷ rest

-- A word of a header, at an offset in it.
abbrev pub word : Bytes → ℕ → ℕ → ℕ
word header offset size = le_value (slice header offset size)

unfoldable pub camera_model : FrameHeaders → Bytes
camera_model h = c_string (slice h.idnt_hdr 16 68)

unfoldable pub camera_make : FrameHeaders → Bytes
camera_make h = first_word (take 32 (camera_model h))

unfoldable pub camera_serial : FrameHeaders → Bytes
camera_serial h = c_string (slice h.idnt_hdr 52 32)

unfoldable pub lens_name : FrameHeaders → Bytes
lens_name h = c_string (slice h.lens_hdr 32 64)

-- The corners of the active area, and its sizes.
abbrev pub y1 : FrameHeaders → ℕ
y1 h = word h.rawi_hdr 72 4

abbrev pub x1 : FrameHeaders → ℕ
x1 h = word h.rawi_hdr 76 4

abbrev pub y2 : FrameHeaders → ℕ
y2 h = word h.rawi_hdr 80 4

abbrev pub x2 : FrameHeaders → ℕ
x2 h = word h.rawi_hdr 84 4

unfoldable pub raw_w : FrameHeaders → ℕ
raw_w h = sub_int (x2 h) (x1 h)

unfoldable pub raw_h : FrameHeaders → ℕ
raw_h h = sub_int (y2 h) (y1 h)

-- Squeezed footage: pixels of 5 by 3.
unfoldable pub is_squeezed : FrameHeaders → Bool
is_squeezed h = above_twice (raw_w h) (raw_h h) && int_at_most (raw_h h) 720

unfoldable pub pixel_aspect : FrameHeaders → List ℕ
pixel_aspect h = if is_squeezed h then 1 ∷ 1 ∷ 5 ∷ 3 ∷ [] else 1 ∷ 1 ∷ 1 ∷ 1 ∷ []

abbrev scaled : ℕ × ℕ → ℕ → List ℕ
scaled r k = r.0 ∷ (r.1 * k % 2 ^ 32) ∷ []

-- The resolutions of the sensor, by the lines and columns that are skipped.
unfoldable pub focal_resolution : FrameHeaders → List ℕ × List ℕ
focal_resolution h =
    let r =
      find_focal_resolution (camera_model h) camera_focal_resolutions first_focal_resolution in
    if is_squeezed h
    then (scaled r.focal_resolution_x 3, scaled r.focal_resolution_y 5)
    else if int_below (raw_w h) 2000
    then (scaled r.focal_resolution_x 3, scaled r.focal_resolution_y 3)
    else (scaled r.focal_resolution_x 1, scaled r.focal_resolution_y 1)

abbrev pub is_int_above : ℕ → ℕ → Bool
is_int_above a n = if is_negative a then false else ltb n a

-- An active area that the frame does not contain is replaced by the frame.
unfoldable pub fit_active_area : FrameHeaders → FrameHeaders
fit_active_area h =
    let area =
      le_bytes 4 0
      ++ (le_bytes 4 0 ++ (le_bytes 4 (y_res h.rawi_hdr) ++ le_bytes 4 (x_res h.rawi_hdr))) in
    if is_int_above (x2 h) (x_res h.rawi_hdr) || is_int_above (y2 h) (y_res h.rawi_hdr)
    then record h { rawi_hdr = write_at h.rawi_hdr 72 area }
    else h

-- The integer part of an override that is positive takes the place of the recorded rate.
unfoldable pub frame_rate : FrameHeaders → Option ℕ → ℕ × ℕ
frame_rate h none = (source_fps_nom h.file_hdr, source_fps_denom h.file_hdr)
frame_rate h (some fps) = (fps * 1000 % 2 ^ 32, 1000)

unfoldable pub baseline_exposure : FrameHeaders → List ℕ
baseline_exposure h =
    if word h.rawi_hdr 92 4 == 0
    then 0 ∷ 1 ∷ []
    else word h.rawi_hdr 88 4 ∷ word h.rawi_hdr 92 4 ∷ []

-- The rounded quotient of two numbers, halves away from zero.
abbrev pub rounded : ℕ → ℕ → ℕ
rounded nom denom = (2 * nom + denom) / (2 * denom)

abbrev pub last_two : ℕ → Bytes
last_two n = (b'0' + n / 10 % 10) ∷ (b'0' + n % 10) ∷ []

-- `"%02d"` and `"%04d"`: so many digits, and those before them.
unfoldable pub two_decimals : ℕ → Bytes
two_decimals n = more_digits 10 (n / 100) ++ last_two n

unfoldable pub four_digits : ℕ → Bytes
four_digits n = more_digits 10 (n / 10000) ++ (last_two (n / 100) ++ last_two n)

-- The fields of the clock block with the time since then: days, hours, minutes and seconds.
unfoldable pub clock : FrameHeaders → ℕ × ℕ × ℕ × ℕ
clock h =
    let seconds = (word h.rtci_hdr 16 2 + elapsed h / 1000000) % 2 ^ 32 in
    let minutes = word h.rtci_hdr 18 2 + seconds / 60 in
    let hours = word h.rtci_hdr 20 2 + minutes / 60 in
    let days = word h.rtci_hdr 22 2 + hours / 24 in (days, hours % 24, minutes % 60, seconds % 60)

unfoldable pub format_datetime : FrameHeaders → Bytes
format_datetime h =
    let (days, hours, minutes, seconds) = clock h in
    four_digits (1900 + word h.rtci_hdr 26 2)
    ++ (b':' ∷ two_decimals (word h.rtci_hdr 24 2 + 1))
    ++ (b':' ∷ two_decimals days)
    ++ (b' ' ∷ two_decimals hours)
    ++ (b':' ∷ two_decimals minutes)
    ++ (b':' ∷ two_decimals seconds)
