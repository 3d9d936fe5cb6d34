-- ===== src/Render.antt =====
-- `process_frame` of mlvfs/main.c: the frame that is shown as a DNG file, with its image
-- processing. Memory is at hand.
pub mod Whole
pub mod Steps
pub mod Process
pub mod Frames
mod Tests
use mlvfs.Base.{
  ℕ, zero, suc, ◌+◌, ◌-◌, ◌*◌, ◌/◌, ◌%◌, ◌^◌, Bool, true, false, not, ◌&&◌, ◌||◌, Option, none,
  some, List, [], ◌∷◌, ◌++◌, get_elem?, length, take, drop, replicate, ◌==◌, if◌then◌else◌, Bytes,
  le_bytes, write_at,
}
use mlvfs.FrameNumber.{get_mlv_frame_number}
use mlvfs.Index.Store.{Disk, load_chunks}
use mlvfs.Headers.{FrameHeaders, mlv_get_frame_headers}
use mlvfs.Getattr.{dng, index_of, x_res, dng_get_image_size, dng_get_header_size}
use mlvfs.Cache.{Frame}
use mlvfs.Histogram.{hist_create, hist_add, hist_median}
use mlvfs.Paths.{SlreMatch, Options, string_ends_with, mlvfs_resolve_path}
use mlvfs.Readdir.{Stack, find_last_separator}
use mlvfs.Unpack.{words_of, bytes_of}
use mlvfs.Unpack.Compressed.{Decoders, get_frame_data}
use mlvfs.Dng.Cameras.{CamMatrices}
use mlvfs.Dng.Header.{word}
use mlvfs.Dng.Build.{dng_get_header_data}
use mlvfs.Stripes.{
  StripesCorrection, stripes_get_correction, stripes_new_correction, set_correction,
  stripes_apply_correction,
}

-- The settings of `struct mlvfs` that it reads.
pub record Settings : Type 0 where
  pub deflicker : ℕ
  pub fix_pattern_noise : Bool
  pub dual_iso : ℕ
  pub chroma_smooth : ℕ
  pub fix_bad_pixels : ℕ
  pub fix_stripes : Bool
  pub fps : Option ℕ

-- The image processing that stands elsewhere, and the floating-point computations. The two
-- conversions of dual ISO may change the levels in the headers. `deflicker_bias` is the exposure
-- bias for a target, a median and a black level, `stack` what the allocator leaves in a new
-- correction, `uninitialised` what it leaves in a buffer of a size, and `compute_correction` is `stripes_compute_correction`.
pub record Filters : Type 0 where
  pub fix_pattern_noise : FrameHeaders → Bytes → Bytes
  pub hdr_convert_data : FrameHeaders → Bytes → Bool × FrameHeaders × Bytes
  pub cr2hdr20_convert_data : FrameHeaders → Bytes → Bool × FrameHeaders × Bytes
  pub fix_focus_pixels : FrameHeaders → Bytes → Bytes
  pub fix_bad_pixels : FrameHeaders → Bytes → Bool → Bytes
  pub chroma_smooth : FrameHeaders → Bytes → ℕ → Bytes
  pub compute_correction : FrameHeaders → StripesCorrection → Bytes → StripesCorrection
  pub stack : List ℕ
  pub uninitialised : ℕ → Bytes
  pub deflicker_bias : ℕ → ℕ → ℕ → ℕ
  pub kelvin_green_to_multipliers : ℕ → CamMatrices → ℕ × ℕ × ℕ
  pub slow_time : ℕ → ℕ → ℕ → ℕ × ℕ × ℕ

-- Of a size that is even and not 0.
unfoldable pub deflicker : Filters → FrameHeaders → ℕ → Bytes → FrameHeaders
deflicker filters h target image_data =
    let black = word h.rawi_hdr 48 4 % 65536 in
    let white = (2 ^ word h.rawi_hdr 44 4 + 1) % 65536 in
    let samples = words_of ((length image_data - 1) / 2) (drop 2 image_data) in
    let median = hist_median (hist_add (hist_create white) samples 1) in
    let bias = le_bytes 4 (filters.deflicker_bias target median black) ++ le_bytes 4 10000 in
    record h { rawi_hdr = write_at h.rawi_hdr 88 bias }

-- The path up to its last separator.
unfoldable pub basename_of : Bytes → Bytes
basename_of path = elim (find_last_separator path) [ none ↦ path | some i ↦ take i path ]

-- The processing of one image: the headers, the buffer of the DNG header and the image.
pub record Work : Type 0 where
  pub headers : FrameHeaders
  pub header : Bytes
  pub image_data : Bytes

module _ (settings : Settings) (filters : Filters) where
  -- `dng_get_header_data` into the buffer of the header.
  unfoldable pub put_header : ℕ → Bytes → Work → Option Work
  put_header max_size basename w =
      elim (dng_get_header_data filters.kelvin_green_to_multipliers filters.slow_time true w.headers
        0 max_size settings.fps basename) [
          | none ↦ none
          | some (bytes, h) ↦ some (record w { headers = h; header = write_at w.header 0 bytes })
        ]

  unfoldable pub convert : FrameHeaders → Bytes → Bool × FrameHeaders × Bytes
  convert h image_data =
      if settings.dual_iso == 1
      then filters.hdr_convert_data h image_data
      else if settings.dual_iso == 2
      then filters.cr2hdr20_convert_data h image_data
      else (false, h, image_data)

  -- Frames without dual ISO.
  unfoldable pub fix_pixels : FrameHeaders → Bytes → Bytes
  fix_pixels h image_data =
      let focus = filters.fix_focus_pixels h image_data in
      if settings.fix_bad_pixels == 0
      then focus
      else filters.fix_bad_pixels h focus (settings.fix_bad_pixels == 2)

  unfoldable pub smooth : FrameHeaders → Bytes → Bytes
  smooth h image_data =
      if settings.chroma_smooth == 0 || settings.dual_iso == 2
      then image_data
      else filters.chroma_smooth h image_data settings.chroma_smooth

  -- The correction of the MLV file, which is computed from the first frame that is shown.
  unfoldable pub fix_stripes :
      Bytes → FrameHeaders → Bytes → List StripesCorrection → Bytes × List StripesCorrection
  fix_stripes mlv_filename h image_data corrections =
      let made = stripes_new_correction filters.stack mlv_filename corrections in
      let computed = filters.compute_correction h made.0 image_data in
      let found : StripesCorrection × List StripesCorrection =
        elim (stripes_get_correction mlv_filename corrections) [
          | some c ↦ (c, corrections)
          | none ↦ (computed, set_correction mlv_filename computed made.1)
        ] in
      let pixels = words_of (length image_data / 2) image_data in
      let fixed =
        stripes_apply_correction (x_res h.rawi_hdr) (word h.rawi_hdr 48 4) (word h.rawi_hdr 52 4)
          (some found.0) 0 pixels in
      if settings.fix_stripes then (bytes_of fixed, found.1) else (image_data, corrections)

  -- The last steps, which all frames take.
  unfoldable pub finish : Bytes → List StripesCorrection → Work → Work × List StripesCorrection
  finish mlv_filename corrections w =
      let smoothed = smooth w.headers w.image_data in
      let (image, cs) = fix_stripes mlv_filename w.headers smoothed corrections in
      (record w { image_data = image }, cs)

  -- From the header on. A frame of dual ISO has its header made again.
  unfoldable pub process_pixels : Bytes → ℕ → Work → Option Work
  process_pixels basename size w =
      let quiet =
        if settings.fix_pattern_noise
        then filters.fix_pattern_noise w.headers w.image_data
        else w.image_data in
      let converted = convert w.headers quiet in
      let again : Work = record w { headers = converted.1; image_data = converted.2 } in
      if converted.0
      then put_header size basename again
      else some (record again { image_data = fix_pixels converted.1 converted.2 })

  -- From the raw image on. `none` is a read behind the end of a header, which does not happen.
  unfoldable pub process_image :
      Bytes
      → Bytes
      → FrameHeaders
      → Bytes
      → List StripesCorrection
      → Option (Work × List StripesCorrection)
  process_image mlv_filename basename h raw corrections =
      let flat =
        if settings.deflicker == 0 then h else deflicker filters h settings.deflicker raw in
      let start : Work = record {
        headers = flat;
        header = filters.uninitialised dng_get_header_size;
        image_data = raw;
      } in
      elim (put_header dng_get_header_size basename start) [
        | none ↦ none
        | some w ↦ elim (process_pixels basename (dng_get_image_size h) w) [
          | none ↦ none
          | some v ↦ some (finish mlv_filename corrections v)
        ]
      ]

-- The frame of the buffer of a path, with the disk and the corrections. The result is 0 where the
-- chunks cannot be opened, and otherwise 1, also where the path or its frame is not found and the
-- buffer is left as it was. `none` is a frame in a chunk that is not there, or out of fuel.
module _ (slre_match : SlreMatch) (options : Options) (stack : Stack) (decoders : Decoders)
    (settings : Settings) (filters : Filters) where
  unfoldable pub render :
      Bytes
      → Bytes
      → FrameHeaders
      → Bytes
      → Disk
      → List StripesCorrection
      → Option (ℕ × Frame × Disk × List StripesCorrection)
  render path mlv_filename h file d corrections =
      let size = dng_get_image_size h in
      let raw = get_frame_data decoders h file (filters.uninitialised size) 0 size in
      elim (process_image settings filters mlv_filename (basename_of path) h raw.1 corrections) [
        | none ↦ none
        | some (w, cs) ↦
            let frame : Frame = record {
              header_size = dng_get_header_size;
              size = size;
              header = some w.header;
              image_data = some w.image_data;
            } in
            some (1, frame, d, cs)
      ]

  unfoldable pub process_frame :
      Bytes
      → Frame
      → Disk
      → List StripesCorrection
      → Option (ℕ × Frame × Disk × List StripesCorrection)
  process_frame path frame d corrections =
      let found : Option (ℕ × Frame × Disk × List StripesCorrection) =
        elim (mlvfs_resolve_path slre_match options path) [
          | none ↦ some (1, frame, d, corrections)
          | some (mlv_filename, path_in_mlv) ↦
              elim (mlv_get_frame_headers stack.main_header stack.block mlv_filename
                (index_of (get_mlv_frame_number path)) d) [
                  | none ↦ none
                  | some (false, h, d') ↦ some (1, frame, d', corrections)
                  | some (true, h, d') ↦ elim (load_chunks mlv_filename d') [
                    | none ↦ some (0, frame, d', corrections)
                    | some chunks ↦ elim (get_elem? chunks h.file_number) [
                      | none ↦ none
                      | some file ↦ render path mlv_filename h file d' corrections
                    ]
                  ]
                ]
        ] in
      if string_ends_with path dng then found else some (1, frame, d, corrections)
