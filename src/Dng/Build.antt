-- ===== src/Dng/Build.antt =====
-- `dng_get_header_data` of mlvfs/dng.c: the two tables of the header of a DNG file, and the header.
use mlvfs.Base.{
  ℕ, ◌+◌, ◌*◌, ◌/◌, ◌%◌, ◌^◌, min, Bool, ◌||◌, Option, none, some, List, [], ◌∷◌, replicate, leb,
  ltb, ◌==◌, if◌then◌else◌, Bytes, write_at, slice,
}
use mlvfs.Headers.{FrameHeaders}
use mlvfs.Getattr.{x_res, y_res, dng_get_image_size, dng_get_header_size}
use mlvfs.Dng.{
  Output, Item, value_entry, string_entry, rational_entry, rational_entry2, array_entry,
  timecode_entry, tiff_header, timecode, directory_entries, add_ifd,
}
use mlvfs.Dng.Tags
use mlvfs.Dng.Tags.{tt_byte, tt_short, tt_long, tt_rational, tt_undefined, tt_s_rational}
use mlvfs.Dng.Integers.{div_int}
use mlvfs.Dng.Cameras.{CamMatrices, cam_matrices, first_matrices, find_matrices}
use mlvfs.Dng.Focal.{camera_focal_resolutions, first_focal_resolution, find_focal_resolution}
use mlvfs.Dng.Header.{
  word, camera_model, camera_make, camera_serial, lens_name, y1, x1, y2, x2, raw_w, raw_h,
  pixel_aspect, focal_resolution, fit_active_area, frame_rate, baseline_exposure, rounded,
  format_datetime,
}

abbrev wb_auto : ℕ
wb_auto = 0

abbrev wb_shade : ℕ
wb_shade = 8

abbrev wb_cloudy : ℕ
wb_cloudy = 2

abbrev wb_tungsten : ℕ
wb_tungsten = 3

abbrev wb_fluorescent : ℕ
wb_fluorescent = 4

abbrev wb_custom : ℕ
wb_custom = 6

abbrev wb_kelvin : ℕ
wb_kelvin = 9

-- The colour temperature of a mode that is not custom: sunshine and flash, and others, are 5500.
unfoldable pub kelvin_of : Bytes → ℕ
kelvin_of wbal_hdr =
    let mode = word wbal_hdr 16 4 in
    if mode == wb_auto || mode == wb_kelvin
    then word wbal_hdr 20 4
    else if mode == wb_shade
    then 7000
    else if mode == wb_cloudy
    then 6000
    else if mode == wb_tungsten
    then 3200
    else if mode == wb_fluorescent
    then 4000
    else 5500

-- `PACK` and `PACK2`: the low halves of two integers.
unfoldable pub pack : ℕ → ℕ → ℕ
pack a b = b % 65536 * 65536 + a % 65536

abbrev pub ifd0_count : ℕ
ifd0_count = 41

abbrev pub exif_ifd_count : ℕ
exif_ifd_count = 11

-- Behind the header of the file and the first directory, and behind the second.
abbrev pub exif_ifd_offset : ℕ
exif_ifd_offset = 8 + 2 + ifd0_count * 12 + 4

abbrev pub first_data_offset : ℕ
first_data_offset = exif_ifd_offset + 2 + exif_ifd_count * 12 + 4

abbrev pub mlvfs_software_name : Bytes
mlvfs_software_name = b'M' ∷ b'L' ∷ b'V' ∷ b'F' ∷ b'S' ∷ []

-- The variables that the tables are filled from.
pub record Parts : Type 0 where
  pub make : Bytes
  pub model : Bytes
  pub serial : Bytes
  pub lens : Bytes
  pub mlv_basename : Bytes
  pub datetime : Bytes
  pub par : List ℕ
  pub focal : List ℕ × List ℕ
  pub unit : ℕ
  pub rate : ℕ × ℕ
  pub exposure : List ℕ
  pub tc : Bytes
  pub matrices : CamMatrices
  pub wbal : List ℕ

unfoldable pub ifd0 : FrameHeaders → Parts → List Item
ifd0 h p =
    (value_entry Tags.tc_new_sub_file_type tt_long 1 Tags.sf_main_image)
    ∷ (value_entry Tags.tc_image_width tt_long 1 (x_res h.rawi_hdr))
    ∷ (value_entry Tags.tc_image_length tt_long 1 (y_res h.rawi_hdr))
    ∷ (value_entry Tags.tc_bits_per_sample tt_short 1 16)
    ∷ (value_entry Tags.tc_compression tt_short 1 Tags.cc_uncompressed)
    ∷ (value_entry Tags.tc_photometric_interpretation tt_short 1 Tags.pi_cfa)
    ∷ (value_entry Tags.tc_fill_order tt_short 1 1)
    ∷ (string_entry Tags.tc_make p.make)
    ∷ (string_entry Tags.tc_model p.model)
    ∷ (value_entry Tags.tc_strip_offsets tt_long 1 dng_get_header_size)
    ∷ (value_entry Tags.tc_orientation tt_short 1 1)
    ∷ (value_entry Tags.tc_samples_per_pixel tt_short 1 1)
    ∷ (value_entry Tags.tc_rows_per_strip tt_short 1 (y_res h.rawi_hdr))
    ∷ (value_entry Tags.tc_strip_byte_counts tt_long 1 (dng_get_image_size h % 2 ^ 32))
    ∷ (value_entry Tags.tc_planar_configuration tt_short 1 Tags.pc_interleaved)
    ∷ (string_entry Tags.tc_software mlvfs_software_name)
    ∷ (string_entry Tags.tc_date_time p.datetime)
    ∷ (value_entry Tags.tc_cfa_repeat_pattern_dim tt_short 2 131074)
    ∷ (value_entry Tags.tc_cfa_pattern tt_byte 4 33620224)
    ∷ (value_entry Tags.tc_exif_ifd tt_long 1 exif_ifd_offset)
    ∷ (value_entry Tags.tc_dng_version tt_byte 4 1025)
    ∷ (string_entry Tags.tc_unique_camera_model p.model)
    ∷ (value_entry Tags.tc_black_level tt_long 1 (word h.rawi_hdr 48 4))
    ∷ (value_entry Tags.tc_white_level tt_long 1 (word h.rawi_hdr 52 4))
    ∷ (rational_entry Tags.tc_default_scale tt_rational p.par)
    ∷ (value_entry Tags.tc_default_crop_origin tt_short 2
        (pack (word h.rawi_hdr 56 4) (word h.rawi_hdr 60 4)))
    ∷ (value_entry Tags.tc_default_crop_size tt_short 2 (pack (raw_w h) (raw_h h)))
    ∷ (rational_entry Tags.tc_color_matrix1 tt_s_rational p.matrices.color_matrix1)
    ∷ (rational_entry Tags.tc_color_matrix2 tt_s_rational p.matrices.color_matrix2)
    ∷ (rational_entry Tags.tc_as_shot_neutral tt_rational p.wbal)
    ∷ (rational_entry Tags.tc_baseline_exposure tt_s_rational p.exposure)
    ∷ (string_entry Tags.tc_camera_serial_number p.serial)
    ∷ (value_entry Tags.tc_calibration_illuminant1 tt_short 1 Tags.ls_standard_light_a)
    ∷ (value_entry Tags.tc_calibration_illuminant2 tt_short 1 Tags.ls_d65)
    ∷ (array_entry Tags.tc_active_area tt_long (y1 h ∷ x1 h ∷ y2 h ∷ x2 h ∷ []))
    ∷ (rational_entry Tags.tc_forward_matrix1 tt_s_rational p.matrices.forward_matrix1)
    ∷ (rational_entry Tags.tc_forward_matrix2 tt_s_rational p.matrices.forward_matrix2)
    ∷ (timecode_entry Tags.tc_time_codes tt_byte p.tc)
    ∷ (rational_entry Tags.tc_frame_rate tt_s_rational (p.rate.0 ∷ p.rate.1 ∷ []))
    ∷ (string_entry Tags.tc_reel_name p.mlv_basename)
    ∷ (rational_entry2 Tags.tc_baseline_exposure_offset tt_s_rational 0 1)
    ∷ []

unfoldable pub exif_ifd : FrameHeaders → Parts → List Item
exif_ifd h p =
    (rational_entry2 Tags.tc_exposure_time tt_rational
      (div_int (word h.expo_hdr 32 8 % 2 ^ 32) 1000) 1000)
    ∷ (rational_entry2 Tags.tc_f_number tt_rational (word h.lens_hdr 20 2) 100)
    ∷ (value_entry Tags.tc_iso_speed_ratings tt_short 1 (word h.expo_hdr 20 4))
    ∷ (value_entry Tags.tc_sensitivity_type tt_short 1 Tags.st_iso_speed)
    ∷ (value_entry Tags.tc_exif_version tt_undefined 4 808661552)
    ∷ (rational_entry2 Tags.tc_subject_distance tt_rational (word h.lens_hdr 18 2) 1)
    ∷ (rational_entry2 Tags.tc_focal_length tt_rational (word h.lens_hdr 16 2) 1)
    ∷ (rational_entry Tags.tc_focal_plane_x_resolution_exif tt_rational p.focal.0)
    ∷ (rational_entry Tags.tc_focal_plane_y_resolution_exif tt_rational p.focal.1)
    ∷ (value_entry Tags.tc_focal_plane_resolution_unit_exif tt_short 1 p.unit)
    ∷ (string_entry Tags.tc_lens_model_exif p.lens)
    ∷ []

-- What the `memset` leaves.
unfoldable pub blank_header : Bytes
blank_header = replicate dng_get_header_size 0

-- The header with its two directories.
unfoldable pub dng_header : List Item → List Item → Bytes
dng_header first second =
    let start : Output = record {
      header = write_at blank_header 0 tiff_header;
      data_offset = first_data_offset;
    } in
    let (first_entries, filled) = directory_entries first start in
    let (second_entries, full) = directory_entries second filled in
    let (position, with_first) = add_ifd first_entries 0 8 full.header in
    let (end, with_second) = add_ifd second_entries 0 position with_first in with_second

-- The computations on floating-point numbers: the channel multipliers of a colour temperature, in
-- millionths, and the hours, minutes and seconds of a frame at a rate of at most one per second.
module _ (kelvin_green_to_multipliers : ℕ → CamMatrices → ℕ × ℕ × ℕ)
    (slow_time : ℕ → ℕ → ℕ → ℕ × ℕ × ℕ) where
  unfoldable pub get_white_balance : Bytes → CamMatrices → List ℕ
  get_white_balance wbal_hdr matrices =
      let (r, g, b) = kelvin_green_to_multipliers (kelvin_of wbal_hdr) matrices in
      let gain_r = word wbal_hdr 24 4 in
      let gain_g = word wbal_hdr 28 4 in
      let gain_b = word wbal_hdr 32 4 in
      if word wbal_hdr 16 4 == wb_custom
      then gain_r ∷ gain_g ∷ gain_g ∷ gain_g ∷ gain_b ∷ gain_g ∷ []
      else 1000000 ∷ r ∷ 1000000 ∷ g ∷ 1000000 ∷ b ∷ []

  -- For a rate and a number below 2 ^ 31. A whole quotient of integers is exact, and another is
  -- not rounded to the next integer.
  unfoldable pub frame_timecode : ℕ × ℕ → ℕ → Bytes
  frame_timecode rate frame =
      let (nom, denom) = rate in
      let fps = rounded nom denom in
      let time = frame / fps in
      let (hours, minutes, seconds) = slow_time frame nom denom in
      if nom == 0 || denom == 0
      then timecode 0 0 0 0
      else if ltb denom nom
      then timecode (time / 3600) (time / 60 % 60) (time % 60) (frame % fps)
      else timecode hours minutes seconds 0

  unfoldable pub header_parts : FrameHeaders → Option ℕ → Bytes → Parts
  header_parts h fps_override mlv_basename =
      let model = camera_model h in
      let matrices = find_matrices model cam_matrices first_matrices in
      let rate = frame_rate h fps_override in
      record {
        make = camera_make h;
        model = model;
        serial = camera_serial h;
        lens = lens_name h;
        mlv_basename = mlv_basename;
        datetime = format_datetime h;
        par = pixel_aspect h;
        focal = focal_resolution h;
        unit = (find_focal_resolution model camera_focal_resolutions first_focal_resolution).unit;
        rate = rate;
        exposure = baseline_exposure h;
        tc = frame_timecode rate (word h.vidf_hdr 16 4);
        matrices = matrices;
        wbal = get_white_balance h.wbal_hdr matrices;
      }

  -- The bytes that are written, and the headers afterwards. The outer `none` is a read behind the
  -- end of the header. Without memory nothing is written.
  unfoldable pub dng_get_header_data :
      Bool → FrameHeaders → ℕ → ℕ → Option ℕ → Bytes → Option (Bytes × FrameHeaders)
  dng_get_header_data allocated h offset max_size fps_override mlv_basename =
      let p = header_parts h fps_override mlv_basename in
      let h' = fit_active_area h in
      let header = dng_header (ifd0 h' p) (exif_ifd h' p) in
      let output_size = min max_size dng_get_header_size in
      if allocated
      then (if output_size == 0 || leb (offset + output_size) dng_get_header_size
          then some (slice header offset output_size, h')
          else none)
      else some ([], h)
