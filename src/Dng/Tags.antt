-- ===== src/Dng/Tags.antt =====
-- The numbers that a DNG file uses: those of mlvfs/dng_tag_codes.h, mlvfs/dng_tag_types.h and
-- mlvfs/dng_tag_values.h that mlvfs/dng.c mentions.
use mlvfs.Base.{ℕ}

abbrev pub tt_byte : ℕ
tt_byte = 1

abbrev pub tt_ascii : ℕ
tt_ascii = 2

abbrev pub tt_short : ℕ
tt_short = 3

abbrev pub tt_long : ℕ
tt_long = 4

abbrev pub tt_rational : ℕ
tt_rational = 5

abbrev pub tt_undefined : ℕ
tt_undefined = 7

abbrev pub tt_s_rational : ℕ
tt_s_rational = 10

abbrev pub tc_new_sub_file_type : ℕ
tc_new_sub_file_type = 254

abbrev pub tc_image_width : ℕ
tc_image_width = 256

abbrev pub tc_image_length : ℕ
tc_image_length = 257

abbrev pub tc_bits_per_sample : ℕ
tc_bits_per_sample = 258

abbrev pub tc_compression : ℕ
tc_compression = 259

abbrev pub tc_photometric_interpretation : ℕ
tc_photometric_interpretation = 262

abbrev pub tc_fill_order : ℕ
tc_fill_order = 266

abbrev pub tc_make : ℕ
tc_make = 271

abbrev pub tc_model : ℕ
tc_model = 272

abbrev pub tc_strip_offsets : ℕ
tc_strip_offsets = 273

abbrev pub tc_orientation : ℕ
tc_orientation = 274

abbrev pub tc_samples_per_pixel : ℕ
tc_samples_per_pixel = 277

abbrev pub tc_rows_per_strip : ℕ
tc_rows_per_strip = 278

abbrev pub tc_strip_byte_counts : ℕ
tc_strip_byte_counts = 279

abbrev pub tc_planar_configuration : ℕ
tc_planar_configuration = 284

abbrev pub tc_software : ℕ
tc_software = 305

abbrev pub tc_date_time : ℕ
tc_date_time = 306

abbrev pub tc_cfa_repeat_pattern_dim : ℕ
tc_cfa_repeat_pattern_dim = 33421

abbrev pub tc_cfa_pattern : ℕ
tc_cfa_pattern = 33422

abbrev pub tc_exif_ifd : ℕ
tc_exif_ifd = 34665

abbrev pub tc_dng_version : ℕ
tc_dng_version = 50706

abbrev pub tc_unique_camera_model : ℕ
tc_unique_camera_model = 50708

abbrev pub tc_black_level : ℕ
tc_black_level = 50714

abbrev pub tc_white_level : ℕ
tc_white_level = 50717

abbrev pub tc_default_scale : ℕ
tc_default_scale = 50718

abbrev pub tc_default_crop_origin : ℕ
tc_default_crop_origin = 50719

abbrev pub tc_default_crop_size : ℕ
tc_default_crop_size = 50720

abbrev pub tc_color_matrix1 : ℕ
tc_color_matrix1 = 50721

abbrev pub tc_color_matrix2 : ℕ
tc_color_matrix2 = 50722

abbrev pub tc_as_shot_neutral : ℕ
tc_as_shot_neutral = 50728

abbrev pub tc_baseline_exposure : ℕ
tc_baseline_exposure = 50730

abbrev pub tc_camera_serial_number : ℕ
tc_camera_serial_number = 50735

abbrev pub tc_calibration_illuminant1 : ℕ
tc_calibration_illuminant1 = 50778

abbrev pub tc_calibration_illuminant2 : ℕ
tc_calibration_illuminant2 = 50779

abbrev pub tc_active_area : ℕ
tc_active_area = 50829

abbrev pub tc_forward_matrix1 : ℕ
tc_forward_matrix1 = 50964

abbrev pub tc_forward_matrix2 : ℕ
tc_forward_matrix2 = 50965

abbrev pub tc_time_codes : ℕ
tc_time_codes = 51043

abbrev pub tc_frame_rate : ℕ
tc_frame_rate = 51044

abbrev pub tc_reel_name : ℕ
tc_reel_name = 51081

abbrev pub tc_baseline_exposure_offset : ℕ
tc_baseline_exposure_offset = 51109

abbrev pub tc_exposure_time : ℕ
tc_exposure_time = 33434

abbrev pub tc_f_number : ℕ
tc_f_number = 33437

abbrev pub tc_iso_speed_ratings : ℕ
tc_iso_speed_ratings = 34855

abbrev pub tc_sensitivity_type : ℕ
tc_sensitivity_type = 34864

abbrev pub tc_exif_version : ℕ
tc_exif_version = 36864

abbrev pub tc_subject_distance : ℕ
tc_subject_distance = 37382

abbrev pub tc_focal_length : ℕ
tc_focal_length = 37386

abbrev pub tc_focal_plane_x_resolution_exif : ℕ
tc_focal_plane_x_resolution_exif = 41486

abbrev pub tc_focal_plane_y_resolution_exif : ℕ
tc_focal_plane_y_resolution_exif = 41487

abbrev pub tc_focal_plane_resolution_unit_exif : ℕ
tc_focal_plane_resolution_unit_exif = 41488

abbrev pub tc_lens_model_exif : ℕ
tc_lens_model_exif = 42036

abbrev pub sf_main_image : ℕ
sf_main_image = 0

abbrev pub cc_uncompressed : ℕ
cc_uncompressed = 1

abbrev pub pi_cfa : ℕ
pi_cfa = 32803

abbrev pub pc_interleaved : ℕ
pc_interleaved = 1

abbrev pub ls_standard_light_a : ℕ
ls_standard_light_a = 17

abbrev pub ls_d65 : ℕ
ls_d65 = 21

abbrev pub st_iso_speed : ℕ
st_iso_speed = 3

abbrev pub magic_tiff : ℕ
magic_tiff = 42

abbrev pub byte_order_ii : ℕ
byte_order_ii = 18761
