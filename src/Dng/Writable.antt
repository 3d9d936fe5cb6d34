-- ===== src/Dng/Writable.antt =====
-- What the tables of mlvfs/dng.c are filled from fits their entries and the data area.
use mlvfs.Base.{
  ℕ, ◌^◌, ◌≤◌, ◌<◌, ◌≡◌, Option, List, [], ◌∷◌, ◌++◌, take, drop, length, length-take, All, arith,
  ◌==◌, Bytes, bytes_eq, le_bytes, slice, IsBytes, All-append, take-IsBytes, slice-IsBytes,
  write_at-IsBytes, le_bytes-IsBytes, le_value-bound, Bool-cases, inl, inr, ◌||◌,
}
use mlvfs.Headers.{FrameHeaders}
use mlvfs.Getattr.{x_res, y_res}
use mlvfs.Dng.{timecode}
use mlvfs.Dng.Focal.{
  CameraFocalResolution, camera_focal_resolutions, first_focal_resolution, find_focal_resolution,
}
use mlvfs.Dng.Cameras.{CamMatrices, AreMatrices, matrices_of-AreMatrices}
use mlvfs.Dng.Header.{
  c_string, first_word, word, camera_model, camera_make, camera_serial, lens_name, pixel_aspect,
  focal_resolution, fit_active_area, baseline_exposure, x2, y2, is_int_above, frame_rate,
}
use mlvfs.Dng.DateFits.{format_datetime_fits}
use mlvfs.Dng.Build.{Parts, get_white_balance, frame_timecode, header_parts}

-- Headers of bytes, whose names end inside their arrays.
pub record IsReadable (h : FrameHeaders) : Type 0 where
  pub vidf_bytes : IsBytes h.vidf_hdr
  pub idnt_bytes : IsBytes h.idnt_hdr
  pub rawi_bytes : IsBytes h.rawi_hdr
  pub expo_bytes : IsBytes h.expo_hdr
  pub lens_bytes : IsBytes h.lens_hdr
  pub model_ends : length (camera_model h) < 32
  pub lens_ends : length (lens_name h) < 32

-- What the variables of the tables are to be.
pub record AreParts (p : Parts) : Type 0 where
  pub make_bytes : IsBytes p.make
  pub make_short : length p.make < 64
  pub model_bytes : IsBytes p.model
  pub model_short : length p.model < 64
  pub serial_bytes : IsBytes p.serial
  pub serial_short : length p.serial < 64
  pub lens_bytes : IsBytes p.lens
  pub lens_short : length p.lens < 64
  pub name_bytes : IsBytes p.mlv_basename
  pub name_short : length p.mlv_basename < 60000
  pub date_bytes : IsBytes p.datetime
  pub date_short : length p.datetime ≤ 79
  pub par_length : length p.par ≡ 4
  pub focal_x_length : length p.focal.0 ≡ 2
  pub focal_y_length : length p.focal.1 ≡ 2
  pub unit_small : p.unit < 65536
  pub exposure_length : length p.exposure ≡ 2
  pub tc_length : length p.tc ≡ 8
  pub matrices_length : AreMatrices p.matrices
  pub wbal_length : length p.wbal ≡ 6

pub word-bound : (bs : Bytes) (o n : ℕ) → IsBytes bs → word bs o n < 256 ^ n
word-bound bs o n h =
    le_value-bound n (slice bs o n) (slice-IsBytes bs o n h)
      (unfold slice in omega (arith, length-take n (drop o bs)))

c_string-IsBytes : (bs : Bytes) → IsBytes bs → IsBytes (c_string bs)
unfolding c_string
c_string-IsBytes [] h = tt
c_string-IsBytes (b ∷ bs) h = elim (Bool-cases (b == 0)) [
  | inl e ↦ rw e tt
  | inr e ↦ rw e (h.0, c_string-IsBytes bs h.1)
]

c_string_le : (bs : Bytes) → length (c_string bs) ≤ length bs
unfolding c_string
c_string_le [] = omega arith
c_string_le (b ∷ bs) = ground (arith, c_string_le bs)

first_word-IsBytes : (bs : Bytes) → IsBytes bs → IsBytes (first_word bs)
unfolding first_word
first_word-IsBytes [] h = tt
first_word-IsBytes (b ∷ bs) h = elim (Bool-cases (b == b' ')) [
  | inl e ↦ rw e tt
  | inr e ↦ rw e (h.0, first_word-IsBytes bs h.1)
]

first_word_le : (bs : Bytes) → length (first_word bs) ≤ length bs
unfolding first_word
first_word_le [] = omega arith
first_word_le (b ∷ bs) = ground (arith, first_word_le bs)

-- A frame number and a rate that an `int` holds.
pub record IsTimed (h : FrameHeaders) (fps : Option ℕ) : Type 0 where
  pub number_small : word h.vidf_hdr 16 4 < 2 ^ 31
  pub nom_small : (frame_rate h fps).0 < 2 ^ 31
  pub denom_small : (frame_rate h fps).1 < 2 ^ 31

pixel_aspect_four : (h : FrameHeaders) → length (pixel_aspect h) ≡ 4
unfolding pixel_aspect
pixel_aspect_four h = ground arith

focal_resolution_two :
    (h : FrameHeaders) → (length (focal_resolution h).0 ≡ 2) × (length (focal_resolution h).1 ≡ 2)
unfolding focal_resolution
focal_resolution_two h = ground arith

baseline_exposure_two : (h : FrameHeaders) → length (baseline_exposure h) ≡ 2
unfolding baseline_exposure
baseline_exposure_two h = ground arith

module _ (kelvin_green_to_multipliers : ℕ → CamMatrices → ℕ × ℕ × ℕ)
    (slow_time : ℕ → ℕ → ℕ → ℕ × ℕ × ℕ) where
  get_white_balance_six :
      (wbal_hdr : Bytes) (m : CamMatrices)
      → length (get_white_balance kelvin_green_to_multipliers slow_time wbal_hdr m) ≡ 6
  unfolding get_white_balance
  get_white_balance_six wbal_hdr m = ground arith

  frame_timecode_eight :
      (rate : ℕ × ℕ) (frame : ℕ)
      → length (frame_timecode kelvin_green_to_multipliers slow_time rate frame) ≡ 8
  unfolding frame_timecode timecode
  frame_timecode_eight rate frame = ground arith

find_unit :
    (model : Bytes) (rows : List CameraFocalResolution) (other : CameraFocalResolution)
    → All (λ (r : CameraFocalResolution). r.unit < 65536) rows
    → other.unit < 65536
    → (find_focal_resolution model rows other).unit < 65536
unfolding find_focal_resolution
find_unit model [] other h o = o
find_unit model (row ∷ rows) other h o = elim (Bool-cases (bytes_eq row.camera model)) [
  | inl e ↦ rw e h.0
  | inr e ↦ rw e (find_unit model rows other h.1 o)
]

unit_small :
    (model : Bytes)
    → (find_focal_resolution model camera_focal_resolutions first_focal_resolution).unit < 65536
unit_small model =
    find_unit model camera_focal_resolutions first_focal_resolution
      (unfold camera_focal_resolutions first_focal_resolution in omega arith)
      (unfold first_focal_resolution in omega arith)

abbrev area : FrameHeaders → Bytes
area h =
    le_bytes 4 0
    ++ (le_bytes 4 0 ++ (le_bytes 4 (y_res h.rawi_hdr) ++ le_bytes 4 (x_res h.rawi_hdr)))

join-IsBytes : (a b : Bytes) → IsBytes a → IsBytes b → IsBytes (a ++ b)
join-IsBytes = All-append (λ (b : ℕ). b < 256)

area-IsBytes : (h : FrameHeaders) → IsBytes (area h)
area-IsBytes h =
    let z = le_bytes-IsBytes 4 0 in
    let y = le_bytes-IsBytes 4 (y_res h.rawi_hdr) in
    let x = le_bytes-IsBytes 4 (x_res h.rawi_hdr) in
    join-IsBytes _ _ z (join-IsBytes _ _ z (join-IsBytes _ _ y x))

pub fit_active_area-IsReadable : (h : FrameHeaders) → IsReadable h → IsReadable (fit_active_area h)
unfolding fit_active_area camera_model lens_name
fit_active_area-IsReadable h r =
    elim (Bool-cases
      (is_int_above (x2 h) (x_res h.rawi_hdr) || is_int_above (y2 h) (y_res h.rawi_hdr))) [
        | inl e ↦ rw e record {
          vidf_bytes = r.vidf_bytes;
          idnt_bytes = r.idnt_bytes;
          rawi_bytes = write_at-IsBytes h.rawi_hdr 72 (area h) r.rawi_bytes (area-IsBytes h);
          expo_bytes = r.expo_bytes;
          lens_bytes = r.lens_bytes;
          model_ends = r.model_ends;
          lens_ends = r.lens_ends;
        }
        | inr e ↦ rw e r
      ]

pub header_parts-AreParts :
    (kelvin_green_to_multipliers : ℕ → CamMatrices → ℕ × ℕ × ℕ) (slow_time : ℕ → ℕ → ℕ → ℕ × ℕ × ℕ)
    (h : FrameHeaders) (fps : Option ℕ) (mlv_basename : Bytes)
    → IsReadable h
    → IsBytes mlv_basename
    → length mlv_basename < 60000
    → AreParts (header_parts kelvin_green_to_multipliers slow_time h fps mlv_basename)
unfolding header_parts
header_parts-AreParts k s h fps name r bytes short =
    let model : IsBytes (camera_model h) =
      unfold camera_model in c_string-IsBytes _ (slice-IsBytes h.idnt_hdr 16 68 r.idnt_bytes) in
    record {
      make_bytes =
          unfold camera_make in first_word-IsBytes _ (take-IsBytes 32 (camera_model h) model);
      make_short =
          unfold camera_make in
          omega (arith, first_word_le (take 32 (camera_model h)), length-take 32 (camera_model h));
      model_bytes = model;
      model_short = omega (arith, r.model_ends);
      serial_bytes =
          unfold camera_serial in c_string-IsBytes _ (slice-IsBytes h.idnt_hdr 52 32 r.idnt_bytes);
      serial_short =
          unfold camera_serial slice in
          omega (arith, c_string_le (slice h.idnt_hdr 52 32), length-take 32 (drop 52 h.idnt_hdr));
      lens_bytes =
          unfold lens_name in c_string-IsBytes _ (slice-IsBytes h.lens_hdr 32 64 r.lens_bytes);
      lens_short = omega (arith, r.lens_ends);
      name_bytes = bytes;
      name_short = short;
      date_bytes = (format_datetime_fits h).0;
      date_short = (format_datetime_fits h).1;
      par_length = pixel_aspect_four h;
      focal_x_length = (focal_resolution_two h).0;
      focal_y_length = (focal_resolution_two h).1;
      unit_small = unit_small (camera_model h);
      exposure_length = baseline_exposure_two h;
      tc_length = frame_timecode_eight k s (frame_rate h fps) (word h.vidf_hdr 16 4);
      matrices_length = matrices_of-AreMatrices (camera_model h);
      wbal_length = get_white_balance_six k s h.wbal_hdr _;
    }
