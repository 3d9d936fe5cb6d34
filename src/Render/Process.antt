-- ===== src/Render/Process.antt =====
-- The frame that `process_frame` of mlvfs/main.c makes is whole.
use mlvfs.Base.{
  ℕ, ◌%◌, ◌<◌, ◌≡◌, inl, inr, refl, ap, ◌∙◌, some, List, length, arith, Bytes, Bool-cases, IsBytes,
}
use mlvfs.Headers.{FrameHeaders}
use mlvfs.Getattr.{dng_get_image_size}
use mlvfs.Dng.Tiff.{read_tiff}
use mlvfs.Dng.Writable.{IsReadable}
use mlvfs.Stripes.{StripesCorrection}
use mlvfs.Render.{
  Settings, Filters, Work, put_header, convert, fix_pixels, smooth, process_image, process_pixels,
  finish,
}
use mlvfs.Render.Whole.{KeepSizes}
use mlvfs.Render.Steps.{
  flat, put_header-HasHeader, convert_kept, fix_pixels_kept, smooth_kept, fix_stripes_kept,
  image_even, flat-IsReadable, IsWhole, quiet, quiet_kept, not_dual,
}

module _ (settings : Settings) (filters : Filters) (keep : KeepSizes filters) where
  -- A work of the sizes that another has, with its header where there is no dual ISO.
  record Follows (w v : Work) : Type 0 where
    header_kept : length v.header ≡ 65536
    size_kept : length v.image_data ≡ length w.image_data
    plain_kept : settings.dual_iso ≡ 0 → v.header ≡ w.header

  process_pixels-Follows :
      (w : Work) (basename : Bytes) (size : ℕ)
      → IsReadable w.headers
      → IsBytes basename
      → length basename < 60000
      → length w.header ≡ 65536
      → (v : Work) × (process_pixels settings filters basename size w ≡ some v) × Follows w v
  unfolding process_pixels
  process_pixels-Follows w basename size r bytes short l =
      let raw = w.image_data in
      let c = convert settings filters w.headers (quiet settings filters keep w.headers raw) in
      let (readable, same) =
        convert_kept settings filters keep w.headers (quiet settings filters keep w.headers raw)
          r in
      let again : Work = record w { headers = c.1; image_data = c.2 } in
      elim (Bool-cases c.0) [
        | inl dual ↦
            let (v, p) =
              put_header-HasHeader settings filters keep again size basename readable bytes short
                l in
            (
              v,
              rw dual p.put,
              record {
                header_kept = p.same_size;
                size_kept =
                    ap length p.same_image ∙ same ∙ quiet_kept settings filters keep w.headers raw;
                plain_kept = λ plain. absurd (
                    not_dual settings filters keep w.headers
                      (quiet settings filters keep w.headers raw) plain dual);
              },
            )
        | inr single ↦ (
          record again { image_data = fix_pixels settings filters c.1 c.2 },
          rw single refl,
          record {
            header_kept = l;
            size_kept =
                fix_pixels_kept settings filters keep c.1 c.2
                ∙ same
                ∙ quiet_kept settings filters keep w.headers raw;
            plain_kept = λ plain. refl;
          },
        )
      ]

  finish_kept :
      (name : Bytes) (cs : List StripesCorrection) (w : Work)
      → length w.image_data % 2 ≡ 0
      → let v = (finish settings filters name cs w).0 in
        (v.header ≡ w.header) × (length v.image_data ≡ length w.image_data)
  unfolding finish
  finish_kept name cs w even =
      let smoothed = smooth settings filters w.headers w.image_data in
      let l = smooth_kept settings filters keep w.headers w.image_data in
      (
        refl,
        fix_stripes_kept settings filters keep name w.headers smoothed cs (omega (arith, l, even))
            ∙ l,
      )

  put_then :
      (name basename : Bytes) (h : FrameHeaders) (raw : Bytes) (cs : List StripesCorrection)
      (w v : Work)
      → put_header settings filters 65536 basename (record {
        headers = flat settings filters h raw;
        header = filters.uninitialised 65536;
        image_data = raw;
      })
        ≡ some w
      → process_pixels settings filters basename (dng_get_image_size h) w ≡ some v
      → process_image settings filters name basename h raw cs
        ≡ some (finish settings filters name cs v)
  unfolding process_image
  put_then name basename h raw cs w v a b = rw (process_image, a, b) refl

  pub process_image-IsWhole :
      (name basename : Bytes) (h : FrameHeaders) (raw : Bytes) (cs : List StripesCorrection)
      → IsReadable h
      → IsBytes basename
      → length basename < 60000
      → length raw ≡ dng_get_image_size h
      → (w : Work) × (cs' : List StripesCorrection) × (process_image settings filters name basename
            h raw cs
          ≡ some (w, cs'))
        × IsWhole settings filters keep h basename raw w
  process_image-IsWhole name basename h raw cs r bytes short l =
      let start : Work = record {
        headers = flat settings filters h raw;
        header = filters.uninitialised 65536;
        image_data = raw;
      } in
      let (w, p) =
        put_header-HasHeader settings filters keep start 65536 basename
          (flat-IsReadable settings filters keep h raw r) bytes short (keep.uninitialised 65536) in
      let (v, made, f) =
        process_pixels-Follows w basename (dng_get_image_size h) p.readable bytes short
          p.same_size in
      let size : length v.image_data ≡ length raw = f.size_kept ∙ ap length p.same_image in
      let done =
        finish_kept name cs v (omega (arith, size, l, image_even settings filters keep h)) in
      let end = finish settings filters name cs v in
      (
        end.0,
        end.1,
        put_then name basename h raw cs w v p.put made,
        record {
          header_size = ap length done.0 ∙ f.header_kept;
          image_size = done.1 ∙ size;
          describes =
              λ plain. ap read_tiff (done.0 ∙ f.plain_kept plain) ∙ p.describes (omega arith);
        },
      )
