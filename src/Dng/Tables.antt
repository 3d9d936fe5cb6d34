-- ===== src/Dng/Tables.antt =====
-- The entries of the two tables of a DNG file fit, and so does the data that they point to.
use mlvfs.Base.{
  ℕ, ◌*◌, ◌%◌, ◌^◌, ◌≤◌, ◌<◌, ◌≡◌, refl, List, [], ◌∷◌, length, All, arith, Bytes, IsBytes,
}
use mlvfs.Headers.{FrameHeaders}
use mlvfs.Getattr.{x_res, y_res, dng_get_image_size, dng_get_header_size}
use mlvfs.Dng.{value_entry, string_entry, rational_entry, rational_entry2}
use mlvfs.Dng.Tags
use mlvfs.Dng.Tags.{tt_byte, tt_short, tt_long, tt_rational, tt_undefined, tt_s_rational}
use mlvfs.Dng.Integers.{div_int}
use mlvfs.Dng.Header.{word, raw_w, raw_h}
use mlvfs.Dng.Build.{Parts, pack, mlvfs_software_name, exif_ifd_offset, ifd0, exif_ifd}
use mlvfs.Dng.Tiff.{type_size}
use mlvfs.Dng.Entries.{Fits, room, room_all}
use mlvfs.Dng.Writable.{IsReadable, AreParts, word-bound}

infixr 3 ◌&◌
◌&◌ : {A B : Type 0} → A → B → A × B
a & b = (a, b)

value_Fits :
    (tag t count value : ℕ)
    → tag < 65536
    → t < 65536
    → count < 2 ^ 32
    → value < 2 ^ 32
    → count * type_size t ≤ 4
    → Fits (value_entry tag t count value)
unfolding Fits
value_Fits tag t count value a b c d e = (a, b, c, d, e)

string_Fits :
    (tag : ℕ) (str : Bytes)
    → tag < 65536
    → IsBytes str
    → length str < 60000
    → Fits (string_entry tag str)
unfolding Fits
string_Fits tag str a b c = (a, b, omega arith)

software_Fits : Fits (string_entry Tags.tc_software mlvfs_software_name)
unfolding Fits
software_Fits = omega arith

rational_Fits :
    (tag t : ℕ) (array : List ℕ) (n : ℕ)
    → tag < 65536
    → t < 65536
    → type_size t ≡ 8
    → length array ≡ n
    → n % 2 ≡ 0
    → 2 ≤ n
    → n < 65536
    → Fits (rational_entry tag t array)
unfolding Fits
rational_Fits tag t array n a b c l e f g = (a, b, c, omega arith, omega arith, omega arith)

rational2_Fits :
    (tag t n d : ℕ) → tag < 65536 → t < 65536 → type_size t ≡ 8 → Fits (rational_entry2 tag t n d)
unfolding Fits
rational2_Fits tag t n d a b c = (a, b, c)

x_res_small : (h : FrameHeaders) → IsReadable h → x_res h.rawi_hdr < 65536
unfolding x_res
x_res_small h r = omega (arith, word-bound h.rawi_hdr 16 2 r.rawi_bytes)

y_res_small : (h : FrameHeaders) → IsReadable h → y_res h.rawi_hdr < 65536
unfolding y_res
y_res_small h r = omega (arith, word-bound h.rawi_hdr 18 2 r.rawi_bytes)

pack_small : (a b : ℕ) → pack a b < 2 ^ 32
unfolding pack
pack_small a b = omega arith

module _ (h : FrameHeaders) (p : Parts) (r : IsReadable h) (q : AreParts p) where
  pub ifd0-Fits : All Fits (ifd0 h p)
  unfolding ifd0
  ifd0-Fits =
      value_Fits Tags.tc_new_sub_file_type tt_long 1 Tags.sf_main_image (omega arith) (omega arith)
        (omega arith) (omega arith) (unfold type_size in omega arith)
      & value_Fits Tags.tc_image_width tt_long 1 (x_res h.rawi_hdr) (omega arith) (omega arith)
          (omega arith) (omega (arith, x_res_small h r)) (unfold type_size in omega arith)
      & value_Fits Tags.tc_image_length tt_long 1 (y_res h.rawi_hdr) (omega arith) (omega arith)
          (omega arith) (omega (arith, y_res_small h r)) (unfold type_size in omega arith)
      & value_Fits Tags.tc_bits_per_sample tt_short 1 16 (omega arith) (omega arith) (omega arith)
          (omega arith) (unfold type_size in omega arith)
      & value_Fits Tags.tc_compression tt_short 1 Tags.cc_uncompressed (omega arith) (omega arith)
          (omega arith) (omega arith) (unfold type_size in omega arith)
      & value_Fits Tags.tc_photometric_interpretation tt_short 1 Tags.pi_cfa (omega arith)
          (omega arith) (omega arith) (omega arith) (unfold type_size in omega arith)
      & value_Fits Tags.tc_fill_order tt_short 1 1 (omega arith) (omega arith) (omega arith)
          (omega arith) (unfold type_size in omega arith)
      & string_Fits Tags.tc_make p.make (omega arith) q.make_bytes (omega (arith, q.make_short))
      & string_Fits Tags.tc_model p.model (omega arith) q.model_bytes (omega (arith, q.model_short))
      & value_Fits Tags.tc_strip_offsets tt_long 1 dng_get_header_size (omega arith) (omega arith)
          (omega arith) (omega arith) (unfold type_size in omega arith)
      & value_Fits Tags.tc_orientation tt_short 1 1 (omega arith) (omega arith) (omega arith)
          (omega arith) (unfold type_size in omega arith)
      & value_Fits Tags.tc_samples_per_pixel tt_short 1 1 (omega arith) (omega arith) (omega arith)
          (omega arith) (unfold type_size in omega arith)
      & value_Fits Tags.tc_rows_per_strip tt_short 1 (y_res h.rawi_hdr) (omega arith) (omega arith)
          (omega arith) (omega (arith, y_res_small h r)) (unfold type_size in omega arith)
      & value_Fits Tags.tc_strip_byte_counts tt_long 1 (dng_get_image_size h % 2 ^ 32) (omega arith)
          (omega arith) (omega arith) (omega arith) (unfold type_size in omega arith)
      & value_Fits Tags.tc_planar_configuration tt_short 1 Tags.pc_interleaved (omega arith)
          (omega arith) (omega arith) (omega arith) (unfold type_size in omega arith)
      & software_Fits
      & string_Fits Tags.tc_date_time p.datetime (omega arith) q.date_bytes
          (omega (arith, q.date_short))
      & value_Fits Tags.tc_cfa_repeat_pattern_dim tt_short 2 131074 (omega arith) (omega arith)
          (omega arith) (omega arith) (unfold type_size in omega arith)
      & value_Fits Tags.tc_cfa_pattern tt_byte 4 33620224 (omega arith) (omega arith) (omega arith)
          (omega arith) (unfold type_size in omega arith)
      & value_Fits Tags.tc_exif_ifd tt_long 1 exif_ifd_offset (omega arith) (omega arith)
          (omega arith) (omega arith) (unfold type_size in omega arith)
      & value_Fits Tags.tc_dng_version tt_byte 4 1025 (omega arith) (omega arith) (omega arith)
          (omega arith) (unfold type_size in omega arith)
      & string_Fits Tags.tc_unique_camera_model p.model (omega arith) q.model_bytes
          (omega (arith, q.model_short))
      & value_Fits Tags.tc_black_level tt_long 1 (word h.rawi_hdr 48 4) (omega arith) (omega arith)
          (omega arith) (omega (arith, word-bound h.rawi_hdr 48 4 r.rawi_bytes))
          (unfold type_size in omega arith)
      & value_Fits Tags.tc_white_level tt_long 1 (word h.rawi_hdr 52 4) (omega arith) (omega arith)
          (omega arith) (omega (arith, word-bound h.rawi_hdr 52 4 r.rawi_bytes))
          (unfold type_size in omega arith)
      & rational_Fits Tags.tc_default_scale tt_rational p.par 4 (omega arith) (omega arith)
          (unfold type_size in refl) q.par_length (omega arith) (omega arith) (omega arith)
      & value_Fits Tags.tc_default_crop_origin tt_short 2
          (pack (word h.rawi_hdr 56 4) (word h.rawi_hdr 60 4)) (omega arith) (omega arith)
          (omega arith) (omega (arith, pack_small (word h.rawi_hdr 56 4) (word h.rawi_hdr 60 4)))
          (unfold type_size in omega arith)
      & value_Fits Tags.tc_default_crop_size tt_short 2 (pack (raw_w h) (raw_h h)) (omega arith)
          (omega arith) (omega arith) (omega (arith, pack_small (raw_w h) (raw_h h)))
          (unfold type_size in omega arith)
      & rational_Fits Tags.tc_color_matrix1 tt_s_rational p.matrices.color_matrix1 18 (omega arith)
          (omega arith) (unfold type_size in refl) q.matrices_length.0 (omega arith) (omega arith)
          (omega arith)
      & rational_Fits Tags.tc_color_matrix2 tt_s_rational p.matrices.color_matrix2 18 (omega arith)
          (omega arith) (unfold type_size in refl) q.matrices_length.1 (omega arith) (omega arith)
          (omega arith)
      & rational_Fits Tags.tc_as_shot_neutral tt_rational p.wbal 6 (omega arith) (omega arith)
          (unfold type_size in refl) q.wbal_length (omega arith) (omega arith) (omega arith)
      & rational_Fits Tags.tc_baseline_exposure tt_s_rational p.exposure 2 (omega arith)
          (omega arith) (unfold type_size in refl) q.exposure_length (omega arith) (omega arith)
          (omega arith)
      & string_Fits Tags.tc_camera_serial_number p.serial (omega arith) q.serial_bytes
          (omega (arith, q.serial_short))
      & value_Fits Tags.tc_calibration_illuminant1 tt_short 1 Tags.ls_standard_light_a (omega arith)
          (omega arith) (omega arith) (omega arith) (unfold type_size in omega arith)
      & value_Fits Tags.tc_calibration_illuminant2 tt_short 1 Tags.ls_d65 (omega arith)
          (omega arith) (omega arith) (omega arith) (unfold type_size in omega arith)
      & (unfold Fits type_size in omega arith)
      & rational_Fits Tags.tc_forward_matrix1 tt_s_rational p.matrices.forward_matrix1 18
          (omega arith) (omega arith) (unfold type_size in refl) q.matrices_length.2 (omega arith)
          (omega arith) (omega arith)
      & rational_Fits Tags.tc_forward_matrix2 tt_s_rational p.matrices.forward_matrix2 18
          (omega arith) (omega arith) (unfold type_size in refl) q.matrices_length.3 (omega arith)
          (omega arith) (omega arith)
      & (unfold Fits type_size in omega (arith, q.tc_length))
      & rational_Fits Tags.tc_frame_rate tt_s_rational (p.rate.0 ∷ p.rate.1 ∷ []) 2 (omega arith)
          (omega arith) (unfold type_size in refl) refl (omega arith) (omega arith) (omega arith)
      & string_Fits Tags.tc_reel_name p.mlv_basename (omega arith) q.name_bytes
          (omega (arith, q.name_short))
      & rational2_Fits Tags.tc_baseline_exposure_offset tt_s_rational 0 1 (omega arith)
          (omega arith) (unfold type_size in refl)
      & tt

  pub exif_ifd-Fits : All Fits (exif_ifd h p)
  unfolding exif_ifd
  exif_ifd-Fits =
      rational2_Fits Tags.tc_exposure_time tt_rational
        (div_int (word h.expo_hdr 32 8 % 2 ^ 32) 1000) 1000 (omega arith) (omega arith)
        (unfold type_size in refl)
      & rational2_Fits Tags.tc_f_number tt_rational (word h.lens_hdr 20 2) 100 (omega arith)
          (omega arith) (unfold type_size in refl)
      & value_Fits Tags.tc_iso_speed_ratings tt_short 1 (word h.expo_hdr 20 4) (omega arith)
          (omega arith) (omega arith) (omega (arith, word-bound h.expo_hdr 20 4 r.expo_bytes))
          (unfold type_size in omega arith)
      & value_Fits Tags.tc_sensitivity_type tt_short 1 Tags.st_iso_speed (omega arith) (omega arith)
          (omega arith) (omega arith) (unfold type_size in omega arith)
      & value_Fits Tags.tc_exif_version tt_undefined 4 808661552 (omega arith) (omega arith)
          (omega arith) (omega arith) (unfold type_size in omega arith)
      & rational2_Fits Tags.tc_subject_distance tt_rational (word h.lens_hdr 18 2) 1 (omega arith)
          (omega arith) (unfold type_size in refl)
      & rational2_Fits Tags.tc_focal_length tt_rational (word h.lens_hdr 16 2) 1 (omega arith)
          (omega arith) (unfold type_size in refl)
      & rational_Fits Tags.tc_focal_plane_x_resolution_exif tt_rational p.focal.0 2 (omega arith)
          (omega arith) (unfold type_size in refl) q.focal_x_length (omega arith) (omega arith)
          (omega arith)
      & rational_Fits Tags.tc_focal_plane_y_resolution_exif tt_rational p.focal.1 2 (omega arith)
          (omega arith) (unfold type_size in refl) q.focal_y_length (omega arith) (omega arith)
          (omega arith)
      & value_Fits Tags.tc_focal_plane_resolution_unit_exif tt_short 1 p.unit (omega arith)
          (omega arith) (omega arith) (omega (arith, q.unit_small))
          (unfold type_size in omega arith)
      & string_Fits Tags.tc_lens_model_exif p.lens (omega arith) q.lens_bytes
          (omega (arith, q.lens_short))
      & tt

  pub room-ifd0 : room_all (ifd0 h p) ≤ 62000
  unfolding ifd0 room_all room
  room-ifd0 = omega (
    arith, q.make_short, q.model_short, q.serial_short, q.name_short, q.date_short, q.par_length,
    q.exposure_length, q.tc_length, q.matrices_length, q.wbal_length,
  )

  pub room-exif_ifd : room_all (exif_ifd h p) ≤ 200
  unfolding exif_ifd room_all room
  room-exif_ifd = omega (arith, q.lens_short, q.focal_x_length, q.focal_y_length)
