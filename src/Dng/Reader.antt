-- ===== src/Dng/Reader.antt =====
-- A DNG file's header as a reader of TIFF files sees it.
use mlvfs.Base.{
  ◌||◌, ◌==◌, leb, ℕ, ◌+◌, ◌*◌, ◌^◌, ◌≤◌, ◌<◌, ◌≡◌, refl, sym, ap, ◌∙◌, min, true, Option, some,
  List, map, length, arith, Bytes, le_value, le_bytes, le_value-le_bytes, slice, IsBytes, take_all,
  take,
}
use mlvfs.Headers.{FrameHeaders}
use mlvfs.Getattr.{x_res, y_res, dng_get_header_size, dng_get_size, dng_get_image_size-small}
use mlvfs.Dng.{tiff_header}
use mlvfs.Dng.Tags.{tc_exif_ifd, tc_strip_offsets, tc_strip_byte_counts}
use mlvfs.Dng.Cameras.{CamMatrices}
use mlvfs.Dng.Header.{fit_active_area}
use mlvfs.Dng.Build.{Parts, dng_header, ifd0, exif_ifd, header_parts, dng_get_header_data}
use mlvfs.Dng.Tiff.{Field, read_ifd, find_field, read_tiff, contents, field, type_size}
use mlvfs.Dng.RoundTrip.{ReadsBack, dng_header-ReadsBack}
use mlvfs.Dng.Writable.{
  IsReadable, IsTimed, AreParts, header_parts-AreParts, fit_active_area-IsReadable,
}
use mlvfs.Dng.Tables.{ifd0-Fits, exif_ifd-Fits, room-ifd0, room-exif_ifd}

exif_found :
    (h : FrameHeaders) (p : Parts)
    → find_field tc_exif_ifd (map field (ifd0 h p)) ≡ some (le_bytes 4 506)
unfolding ifd0 field contents find_field type_size le_bytes
exif_found h p = refl

read_tiff-ReadsBack :
    (h : FrameHeaders) (p : Parts) (header : Bytes)
    → ReadsBack header (ifd0 h p) (exif_ifd h p)
    → read_tiff header ≡ some (map field (ifd0 h p), map field (exif_ifd h p))
unfolding read_tiff
read_tiff-ReadsBack h p header r =
    let order : slice header 0 2 ≡ le_bytes 2 18761 =
      r.file_start 0 2 (omega arith) ∙ unfold slice tiff_header le_bytes in refl in
    let magic : slice header 2 2 ≡ le_bytes 2 42 =
      r.file_start 2 2 (omega arith) ∙ unfold slice tiff_header le_bytes in refl in
    let first : slice header 4 4 ≡ le_bytes 4 8 =
      r.file_start 4 4 (omega arith) ∙ unfold slice tiff_header le_bytes in refl in
    let first_ifd : read_ifd header (le_value (slice header 4 4)) ≡ map field (ifd0 h p) =
      ap (λ (b : Bytes). read_ifd header (le_value b)) first
      ∙ ap (read_ifd header) (le_value-le_bytes 4 8 (omega arith))
      ∙ r.at_first in
    let second_ifd : read_ifd header (le_value (le_bytes 4 506)) ≡ map field (exif_ifd h p) =
      ap (read_ifd header) (le_value-le_bytes 4 506 (omega arith)) ∙ r.at_second in
    let is_order : le_value (slice header 0 2) ≡ 18761 =
      ap le_value order ∙ le_value-le_bytes 2 18761 (omega arith) in
    let is_magic : le_value (slice header 2 2) ≡ 42 =
      ap le_value magic ∙ le_value-le_bytes 2 42 (omega arith) in
    rw (is_order, is_magic, first_ifd, exif_found h p, second_ifd)
      (ap (λ (fields : List Field). some (fields, map field (exif_ifd h p))) first_ifd)

module _ (kelvin_green_to_multipliers : ℕ → CamMatrices → ℕ × ℕ × ℕ)
    (slow_time : ℕ → ℕ → ℕ → ℕ × ℕ × ℕ) where
  -- A request from offset 0 gives the start of the whole header.
  pub dng_get_header_data-part :
      (h : FrameHeaders) (max_size : ℕ) (fps_override : Option ℕ) (mlv_basename : Bytes)
      → IsReadable h
      → IsBytes mlv_basename
      → length mlv_basename < 60000
      → let h' = fit_active_area h in
        let p = header_parts kelvin_green_to_multipliers slow_time h fps_override mlv_basename in
        (header : Bytes) × (dng_get_header_data kelvin_green_to_multipliers slow_time true h 0
            max_size fps_override mlv_basename
          ≡ some (slice header 0 (min max_size 65536), h'))
        × (length header ≡ 65536)
        × (read_tiff header ≡ some (map field (ifd0 h' p), map field (exif_ifd h' p)))
  unfolding dng_get_header_data
  dng_get_header_data-part h max_size fps_override mlv_basename r bytes short =
      let h' = fit_active_area h in
      let p = header_parts kelvin_green_to_multipliers slow_time h fps_override mlv_basename in
      let header = dng_header (ifd0 h' p) (exif_ifd h' p) in
      let r' : IsReadable h' = fit_active_area-IsReadable h r in
      let q : AreParts p =
        header_parts-AreParts kelvin_green_to_multipliers slow_time h fps_override mlv_basename r
          bytes short in
      let back : ReadsBack header (ifd0 h' p) (exif_ifd h' p) =
        dng_header-ReadsBack (ifd0 h' p) (exif_ifd h' p) (ifd0-Fits h' p r' q)
          (exif_ifd-Fits h' p r' q) (unfold ifd0 in refl) (unfold exif_ifd in refl)
          (omega (arith, room-ifd0 h' p r' q, room-exif_ifd h' p r' q)) in
      let fits : (min max_size 65536 == 0) || leb (0 + min max_size 65536) 65536 ≡ true =
        ground arith in
      (header, rw fits refl, back.length_whole, read_tiff-ReadsBack h' p header back)

  -- For headers of bytes whose camera and lens names end inside their arrays, a number of the frame
  -- and a rate that an `int` holds, and a name of the file of fewer than 60000 bytes, a request for at least 65536 bytes from offset 0 gives a header
  -- of exactly 65536 bytes, and a reader of TIFF files that follows the offsets in it finds the
  -- tags, types and values of both tables, in order, none of them overwritten by another.
  pub dng_get_header_data-read_tiff :
      (h : FrameHeaders) (max_size : ℕ) (fps_override : Option ℕ) (mlv_basename : Bytes)
      → IsReadable h
      → IsTimed h fps_override
      → IsBytes mlv_basename
      → length mlv_basename < 60000
      → 65536 ≤ max_size
      → let h' = fit_active_area h in
        let p = header_parts kelvin_green_to_multipliers slow_time h fps_override mlv_basename in
        (header : Bytes) × (dng_get_header_data kelvin_green_to_multipliers slow_time true h 0
            max_size fps_override mlv_basename
          ≡ some (header, h'))
        × (length header ≡ 65536)
        × (read_tiff header ≡ some (map field (ifd0 h' p), map field (exif_ifd h' p)))
  dng_get_header_data-read_tiff h max_size fps_override mlv_basename r timed bytes short large =
      let (header, part, l, reads) =
        dng_get_header_data-part h max_size fps_override mlv_basename r bytes short in
      let size : min max_size 65536 ≡ 65536 = omega arith in
      let whole : slice header 0 (min max_size 65536) ≡ header =
        unfold slice in ap (λ (n : ℕ). take n header) (size ∙ sym l) ∙ take_all header in
      (header, part ∙ ap (λ (b : Bytes). some (b, fit_active_area h)) whole, l, reads)

-- For an image of less than 2 GB, the image data that the first directory describes begins where
-- the header ends, it has two bytes for each pixel, and with it the file has the size that is
-- reported.
pub strip_lem :
    (h : FrameHeaders) (p : Parts)
    → x_res h.rawi_hdr * y_res h.rawi_hdr * 2 < 2 ^ 31
    → (offset count : Bytes) × (find_field tc_strip_offsets (map field (ifd0 h p)) ≡ some offset)
      × (find_field tc_strip_byte_counts (map field (ifd0 h p)) ≡ some count)
      × (le_value offset ≡ dng_get_header_size)
      × (le_value count ≡ x_res h.rawi_hdr * y_res h.rawi_hdr * 2)
      × (le_value offset + le_value count ≡ dng_get_size h)
unfolding ifd0 field contents find_field type_size le_bytes dng_get_size le_value
strip_lem h p small =
    let e = dng_get_image_size-small h small in
    (_, _, refl, refl, refl, omega (arith, e), omega (arith, e))
