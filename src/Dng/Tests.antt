-- ===== src/Dng/Tests.antt =====
-- A header, its date and its strip at a concrete frame.
use mlvfs.Base.{
  ℕ, ◌+◌, ◌*◌, ◌/◌, ◌^◌, ◌<◌, ◌≡◌, refl, true, none, some, [], ◌∷◌, ◌++◌, map, length, replicate,
  arith, Bytes, le_value, le_bytes, slice,
}
use mlvfs.FrameNumber.{more_digits}
use mlvfs.Wav.Headers.{source_fps_nom, source_fps_denom}
use mlvfs.Headers.{FrameHeaders, no_headers}
use mlvfs.Getattr.{elapsed, dng_get_header_size, dng_get_size, x_res, y_res}
use mlvfs.Dng.{Output, add_string, timecode, to_tc_byte}
use mlvfs.Dng.Tags.{tc_strip_offsets, tc_strip_byte_counts}
use mlvfs.Dng.Cameras.{CamMatrices}
use mlvfs.Dng.Header.{
  word, frame_rate, c_string, camera_model, lens_name, clock, format_datetime, fit_active_area,
  two_decimals, four_digits,
}
use mlvfs.Dng.Build.{ifd0, exif_ifd, header_parts, frame_timecode, dng_get_header_data}
use mlvfs.Dng.Tiff.{find_field, read_tiff, field}
use mlvfs.Dng.Writable.{IsReadable, IsTimed}
use mlvfs.Dng.Reader.{dng_get_header_data-read_tiff, strip_lem}
use mlvfs.Dng.DateTime.{number_at, seconds_of, format_datetime_lem}

abbrev multipliers : ℕ → CamMatrices → ℕ × ℕ × ℕ
multipliers kelvin matrices = (500000, 1000000, 600000)

abbrev slow : ℕ → ℕ → ℕ → ℕ × ℕ × ℕ
slow frame nom denom = (0, 0, 0)

-- The camera "Canon", 1200 by 800 pixels, at 23:59:58 on the fifth of March 2015, 3.5 seconds
-- before the frame.
abbrev frame : FrameHeaders
frame = record no_headers {
  vidf_hdr = replicate 8 0 ++ (le_bytes 8 3500000 ++ le_bytes 4 96);
  file_hdr = replicate 44 0 ++ (le_bytes 4 24000 ++ le_bytes 4 1000);
  rtci_hdr =
      replicate 16 0
      ++ (le_bytes 2 58
          ++ (le_bytes 2 59
              ++ (le_bytes 2 23 ++ (le_bytes 2 5 ++ (le_bytes 2 2 ++ le_bytes 2 115)))));
  idnt_hdr = replicate 16 0 ++ (b'C' ∷ b'a' ∷ b'n' ∷ b'o' ∷ b'n' ∷ replicate 63 0);
  rawi_hdr = replicate 16 0 ++ (le_bytes 2 1200 ++ (le_bytes 2 800 ++ replicate 160 0));
  lens_hdr = replicate 96 0;
}

abbrev basename : Bytes
basename = b'/' ∷ b'a' ∷ b'.' ∷ b'M' ∷ b'L' ∷ b'V' ∷ []

frame-IsReadable : IsReadable frame
unfolding le_bytes
frame-IsReadable = record {
  vidf_bytes = omega arith;
  idnt_bytes = omega arith;
  rawi_bytes = omega arith;
  expo_bytes = omega arith;
  lens_bytes = omega arith;
  model_ends = unfold camera_model c_string slice in omega arith;
  lens_ends = unfold lens_name c_string slice in omega arith;
}

frame-IsTimed : IsTimed frame none
unfolding frame_rate le_bytes le_value slice source_fps_nom source_fps_denom
frame-IsTimed = record {
  number_small = omega arith;
  nom_small = omega arith;
  denom_small = omega arith;
}

dng_get_header_data-read_tiff_example :
    let p = header_parts multipliers slow frame none basename in
    (header : Bytes) × (dng_get_header_data multipliers slow true frame 0 65536 none basename
      ≡ some (header, fit_active_area frame))
    × (length header ≡ 65536)
    × (read_tiff header
        ≡ some (
          map field (ifd0 (fit_active_area frame) p),
          map field (exif_ifd (fit_active_area frame) p),
        ))
dng_get_header_data-read_tiff_example =
    dng_get_header_data-read_tiff multipliers slow frame 65536 none basename frame-IsReadable
      frame-IsTimed (omega arith) (omega arith) (omega arith)

image_small : x_res frame.rawi_hdr * y_res frame.rawi_hdr * 2 < 2 ^ 31
unfolding x_res y_res le_bytes le_value slice
image_small = omega arith

strip_lem_example :
    let p = header_parts multipliers slow frame none basename in
    (offset count : Bytes) × (find_field tc_strip_offsets (map field (ifd0 frame p)) ≡ some offset)
    × (find_field tc_strip_byte_counts (map field (ifd0 frame p)) ≡ some count)
    × (le_value offset ≡ dng_get_header_size)
    × (le_value count ≡ x_res frame.rawi_hdr * y_res frame.rawi_hdr * 2)
    × (le_value offset + le_value count ≡ dng_get_size frame)
strip_lem_example = strip_lem frame (header_parts multipliers slow frame none basename) image_small

elapsed_frame : elapsed frame ≡ 3500000
unfolding elapsed le_bytes le_value slice
elapsed_frame = refl

-- The day is over: the time is one second after midnight, on the sixth.
clock_frame : clock frame ≡ (6, 0, 0, 1)
unfolding clock elapsed le_bytes le_value slice
clock_frame = refl

format_datetime_frame :
    format_datetime frame
    ≡ two_decimals 20
      ++ (two_decimals 15
          ++ (b':' ∷ two_decimals 3
              ++ (b':' ∷ two_decimals 6
                  ++ (b' ' ∷ two_decimals 0
                      ++ (b':' ∷ two_decimals 0 ++ (b':' ∷ two_decimals 1))))))
unfolding format_datetime two_decimals four_digits more_digits clock elapsed le_bytes le_value slice
format_datetime_frame = refl

seconds_fit : word frame.rtci_hdr 16 2 + elapsed frame / 1000000 < 2 ^ 32
unfolding elapsed le_bytes le_value slice
seconds_fit = omega arith

year_fits : 1900 + word frame.rtci_hdr 26 2 < 10000
unfolding le_bytes le_value slice
year_fits = omega arith

month_fits : word frame.rtci_hdr 24 2 + 1 < 100
unfolding le_bytes le_value slice
month_fits = omega arith

days_fit : (clock frame).0 < 100
unfolding clock elapsed le_bytes le_value slice
days_fit = omega arith

format_datetime_lem_example :
    let text = format_datetime frame in
    (length text ≡ 19)
    × (number_at text 0 4 ≡ 1900 + word frame.rtci_hdr 26 2)
    × (number_at text 5 2 ≡ word frame.rtci_hdr 24 2 + 1)
    × (number_at text 11 2 < 24)
    × (number_at text 14 2 < 60)
    × (number_at text 17 2 < 60)
    × (seconds_of
          (number_at text 8 2)
          (number_at text 11 2)
          (number_at text 14 2)
          (number_at text 17 2)
        ≡ seconds_of
            (word frame.rtci_hdr 22 2)
            (word frame.rtci_hdr 20 2)
            (word frame.rtci_hdr 18 2)
            (word frame.rtci_hdr 16 2 + elapsed frame / 1000000))
format_datetime_lem_example = format_datetime_lem frame seconds_fit year_fits month_fits days_fit

-- Frame 96 at 24 frames per second is four seconds into the recording.
frame_timecode_4s : frame_timecode multipliers slow (24000, 1000) 97 ≡ 1 ∷ 4 ∷ 0 ∷ 0 ∷ replicate 4 0
unfolding frame_timecode timecode to_tc_byte
frame_timecode_4s = refl

-- A string of four bytes with its terminator does not reach the data area.
add_string_short :
    (o : Output) → add_string (b'5' ∷ b'0' ∷ b'D' ∷ []) o ≡ (53 + 256 * (48 + 256 * 68), o)
unfolding add_string le_value
add_string_short o = refl
