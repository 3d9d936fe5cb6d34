-- ===== src/Render/Steps.antt =====
-- The steps of `process_frame` of mlvfs/main.c, one by one.
use mlvfs.Base.{
  ◌*◌, ℕ, ◌/◌, ◌%◌, ◌≤◌, ◌<◌, ◌≡◌, inl, inr, refl, sym, ap, ◌∙◌, Bool, true, false, min, Option,
  none, some, List, [], ◌∷◌, ◌++◌, map, length, arith, ltb, ◌^◌, Bytes, Bool-cases, if◌then◌else◌,
  length-write_at, slice, write_at, take, take_all, drop, IsBytes, ◌==◌, length-slice, append-nil,
  ◌≢◌,
}
use mlvfs.Headers.{FrameHeaders}
use mlvfs.Getattr.{dng_get_image_size, size_of_int, x_res, y_res}
use mlvfs.Unpack.{words_of}
use mlvfs.Dng.Header.{fit_active_area, word}
use mlvfs.Dng.Build.{ifd0, exif_ifd, header_parts}
use mlvfs.Dng.Tiff.{read_tiff, field}
use mlvfs.Dng.Writable.{IsReadable, fit_active_area-IsReadable}
use mlvfs.Dng.Reader.{dng_get_header_data-part}
use mlvfs.Stripes.{StripesCorrection, stripes_apply_correction}
use mlvfs.Stripes.Columns.{length-correct_pixels}
use mlvfs.Render.{
  Settings, Filters, Work, deflicker, put_header, convert, fix_pixels, smooth, fix_stripes,
}
use mlvfs.Render.Whole.{KeepSizes, length-bytes_of, length-words_of, deflicker-IsReadable}

stripes_apply_correction_kept :
    (w black white : ℕ) (c : Option StripesCorrection) (image : List ℕ)
    → length (stripes_apply_correction w black white c 0 image) ≡ length image
unfolding stripes_apply_correction
stripes_apply_correction_kept w black white none image = refl
stripes_apply_correction_kept w black white (some c) image =
    ground
      (arith, length-correct_pixels (black % 65536) (white % 65536) c.coefficients (0 % 8) 0 image)

drop_all : (bs : Bytes) → drop (length bs) bs ≡ []
drop_all [] = refl
drop_all (b ∷ bs) = drop_all bs

write_whole : (out bs : Bytes) → length out ≡ length bs → write_at out 0 bs ≡ bs
unfolding write_at
write_whole out bs e = rw (← e) (ap (λ (r : Bytes). bs ++ r) (drop_all out) ∙ append-nil bs)

module _ (settings : Settings) (filters : Filters) where
  -- The fields that a reader finds in the header of a frame.
  abbrev pub Describes : FrameHeaders → Bytes → Bytes → Type 0
  Describes h basename header =
      let h' = fit_active_area h in
      let p =
        header_parts filters.kelvin_green_to_multipliers filters.slow_time h settings.fps
          basename in
      read_tiff header ≡ some (map field (ifd0 h' p), map field (exif_ifd h' p))

  -- The headers with the exposure that deflickering gives.
  abbrev pub flat : FrameHeaders → Bytes → FrameHeaders
  flat h raw = if settings.deflicker == 0 then h else deflicker filters h settings.deflicker raw

module _ (settings : Settings) (filters : Filters) (keep : KeepSizes filters) where
  -- A header that was written.
  pub record HasHeader (w v : Work) (max_size : ℕ) (basename : Bytes) : Type 0 where
    pub put : put_header settings filters max_size basename w ≡ some v
    pub readable : IsReadable v.headers
    pub same_image : v.image_data ≡ w.image_data
    pub same_size : length v.header ≡ 65536
    pub describes : 65536 ≤ max_size → Describes settings filters w.headers basename v.header

  pub put_header-HasHeader :
      (w : Work) (max_size : ℕ) (basename : Bytes)
      → IsReadable w.headers
      → IsBytes basename
      → length basename < 60000
      → length w.header ≡ 65536
      → (v : Work) × HasHeader w v max_size basename
  unfolding put_header
  put_header-HasHeader w max_size basename r bytes short l =
      let (header, part, whole, reads) =
        dng_get_header_data-part filters.kelvin_green_to_multipliers filters.slow_time w.headers
          max_size settings.fps basename r bytes short in
      let n = min max_size 65536 in
      let size : length (slice header 0 n) ≡ n = length-slice header 0 n (omega arith) in
      let v : Work = record w {
        headers = fit_active_area w.headers;
        header = write_at w.header 0 (slice header 0 n);
      } in
      (
        v,
        record {
          put = rw (put_header, part) refl;
          readable = fit_active_area-IsReadable w.headers r;
          same_image = refl;
          same_size = length-write_at w.header 0 (slice header 0 n) (omega arith) ∙ l;
          describes = λ large.
              let all : n ≡ length header = omega arith in
              let same : slice header 0 n ≡ header =
                unfold slice in ap (λ (k : ℕ). take k header) all ∙ take_all header in
              ap read_tiff
                (ap (write_at w.header 0) same ∙ write_whole w.header header (l ∙ sym whole))
              ∙ reads;
        },
      )

  pub convert_kept :
      (h : FrameHeaders) (d : Bytes)
      → IsReadable h
      → IsReadable (convert settings filters h d).1
        × (length (convert settings filters h d).2 ≡ length d)
  unfolding convert
  convert_kept h d r = elim (Bool-cases (settings.dual_iso == 1)) [
    | inl e ↦ rw e (keep.hdr_convert h d r)
    | inr e ↦ elim (Bool-cases (settings.dual_iso == 2)) [
      | inl f ↦ rw (e, f) (keep.cr2hdr20 h d r)
      | inr f ↦ rw (e, f) (r, refl)
    ]
  ]

  pub fix_pixels_kept :
      (h : FrameHeaders) (d : Bytes) → length (fix_pixels settings filters h d) ≡ length d
  unfolding fix_pixels
  fix_pixels_kept h d = ground (
    arith,
    keep.focus_pixels h d,
    keep.bad_pixels h (filters.fix_focus_pixels h d) (settings.fix_bad_pixels == 2),
  )

  pub smooth_kept : (h : FrameHeaders) (d : Bytes) → length (smooth settings filters h d) ≡ length d
  unfolding smooth
  smooth_kept h d = ground (arith, keep.smoothing h d settings.chroma_smooth)

  pub fix_stripes_kept :
      (name : Bytes) (h : FrameHeaders) (d : Bytes) (cs : List StripesCorrection)
      → length d % 2 ≡ 0
      → length (fix_stripes settings filters name h d cs).0 ≡ length d
  unfolding fix_stripes
  fix_stripes_kept name h d cs even = elim (Bool-cases settings.fix_stripes) [
    | inr e ↦ rw e refl
    | inl e ↦
        let pixels = words_of (length d / 2) d in
        rw e (
          length-bytes_of _
          ∙ omega (
            arith,
            stripes_apply_correction_kept (x_res h.rawi_hdr) (word h.rawi_hdr 48 4)
                (word h.rawi_hdr 52 4) _ pixels,
            length-words_of (length d / 2) d,
          ))
  ]

  pub image_even : (h : FrameHeaders) → dng_get_image_size h % 2 ≡ 0
  unfolding dng_get_image_size size_of_int
  image_even h =
      let n = x_res h.rawi_hdr * y_res h.rawi_hdr in
      let even : n * 2 % 2 ^ 32 % 2 ≡ 0 = omega arith in
      elim (Bool-cases (ltb (n * 2 % 2 ^ 32) (2 ^ 31))) [
        | inl e ↦ rw e even
        | inr e ↦ rw e (omega (arith, even))
      ]

  pub flat-IsReadable :
      (h : FrameHeaders) (raw : Bytes) → IsReadable h → IsReadable (flat settings filters h raw)
  flat-IsReadable h raw r = elim (Bool-cases (settings.deflicker == 0)) [
    | inl e ↦ rw e r
    | inr e ↦ rw e (deflicker-IsReadable filters h settings.deflicker raw r)
  ]

  -- What comes of a raw image.
  pub record IsWhole (h : FrameHeaders) (basename raw : Bytes) (w : Work) : Type 0 where
    pub header_size : length w.header ≡ 65536
    pub image_size : length w.image_data ≡ length raw
    pub describes :
        settings.dual_iso ≡ 0
        → Describes settings filters (flat settings filters h raw) basename w.header

  abbrev pub quiet : FrameHeaders → Bytes → Bytes
  quiet h raw = if settings.fix_pattern_noise then filters.fix_pattern_noise h raw else raw

  pub quiet_kept : (h : FrameHeaders) (raw : Bytes) → length (quiet h raw) ≡ length raw
  quiet_kept h raw = ground (arith, keep.pattern_noise h raw)

  convert_plain :
      (h : FrameHeaders) (d : Bytes)
      → settings.dual_iso ≡ 0
      → convert settings filters h d ≡ (false, h, d)
  unfolding convert
  convert_plain h d e = ground (arith, e)

  pub not_dual :
      (h : FrameHeaders) (d : Bytes)
      → settings.dual_iso ≡ 0
      → (convert settings filters h d).0 ≢ true
  not_dual h d plain dual =
      let e : false ≡ true =
        sym (ap (λ (t : Bool × FrameHeaders × Bytes). t.0) (convert_plain h d plain)) ∙ dual in
      cc e
