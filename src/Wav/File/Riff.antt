-- ===== src/Wav/File/Riff.antt =====
-- The header of a WAV file as a reader of RIFF files sees it.
use mlvfs.Base.{
  ℕ, suc, ◌+◌, ◌-◌, ◌%◌, ◌^◌, ◌≤◌, ◌<◌, ◌≡◌, refl, sym, ap, ◌∙◌, false, some, [], ◌++◌, append-nil,
  append_assoc, length, length-append, take, take-append, if◌then◌else◌, arith, Bytes, bytes_eq,
  le_value, le_bytes, le_value-le_bytes, slice,
}
use mlvfs.Wav.Headers.{WavHeaders, sizeof_wav_header, source_fps_nom, source_fps_denom}
use mlvfs.Wav.File.{
  Printing, padded, ixml, wav_bext, riff_chunk, fmt_body, wav_header, riff_name, wave_name,
  bext_name, ixml_name, fmt_name, data_name,
}
use mlvfs.Wav.File.Chunks.{
  find_chunk, behind, find_chunk-riff_chunk, length-riff_chunk, length-padded, length-wav_bext,
}

-- A header of four chunks behind the name of the file, the last one of which has no bytes yet.
module _ (riff b x f : Bytes) (s : ℕ) (lr : length riff ≡ 12) (lb : length b ≡ 606)
    (lx : length x ≡ 1024) (lf : length f ≡ 16) (small : s < 2 ^ 32) where
  abbrev b_chunk : Bytes
  b_chunk = riff_chunk bext_name 606 b

  abbrev x_chunk : Bytes
  x_chunk = riff_chunk ixml_name 1024 x

  abbrev f_chunk : Bytes
  f_chunk = riff_chunk fmt_name 16 f

  abbrev d_chunk : Bytes
  d_chunk = riff_chunk data_name s []

  abbrev file : Bytes
  file = riff ++ (b_chunk ++ (x_chunk ++ (f_chunk ++ d_chunk)))

  file_x : file ≡ (riff ++ b_chunk) ++ (x_chunk ++ (f_chunk ++ d_chunk))
  file_x = sym (append_assoc riff b_chunk (x_chunk ++ (f_chunk ++ d_chunk)))

  file_f : file ≡ ((riff ++ b_chunk) ++ x_chunk) ++ (f_chunk ++ d_chunk)
  file_f = file_x ∙ sym (append_assoc (riff ++ b_chunk) x_chunk (f_chunk ++ d_chunk))

  file_d : file ≡ (((riff ++ b_chunk) ++ x_chunk) ++ f_chunk) ++ (d_chunk ++ [])
  file_d =
      file_f
      ∙ sym (append_assoc ((riff ++ b_chunk) ++ x_chunk) f_chunk d_chunk)
      ∙ ap (λ (d : Bytes). (((riff ++ b_chunk) ++ x_chunk) ++ f_chunk) ++ d)
          (sym (append-nil d_chunk))

  at_x : length (riff ++ b_chunk) ≡ 626
  at_x = omega (arith, length-append riff b_chunk, length-riff_chunk 98 101 120 116 606 b)

  at_f : length ((riff ++ b_chunk) ++ x_chunk) ≡ 1658
  at_f =
      omega (
        arith,
        at_x,
        length-append (riff ++ b_chunk) x_chunk,
        length-riff_chunk 105 88 77 76 1024 x,
      )

  at_d : length (((riff ++ b_chunk) ++ x_chunk) ++ f_chunk) ≡ 1682
  at_d = omega (
    arith,
    at_f,
    length-append ((riff ++ b_chunk) ++ x_chunk) f_chunk,
    length-riff_chunk 102 109 116 32 16 f,
  )

  length-file : length file ≡ 1690
  length-file =
      ap length file_d
      ∙ omega (
        arith,
        at_d,
        length-append (((riff ++ b_chunk) ++ x_chunk) ++ f_chunk) (d_chunk ++ []),
        length-append d_chunk [],
        length-riff_chunk 100 97 116 97 s [],
      )

  -- The walk over the first two chunks, for another name.
  skip_two :
      (n : ℕ) (name : Bytes)
      → bytes_eq bext_name name ≡ false
      → bytes_eq ixml_name name ≡ false
      → find_chunk (suc (suc n)) name file 12 ≡ find_chunk n name file 1658
  skip_two n name nb nx =
      ap (find_chunk (suc (suc n)) name file) (sym lr)
      ∙ find_chunk-riff_chunk (suc n) name riff 98 101 120 116 606 b
          (x_chunk ++ (f_chunk ++ d_chunk)) (omega arith) (omega arith)
      ∙ rw nb (
          ap (find_chunk (suc n) name file) (omega (arith, at_x))
          ∙ ap (λ (h : Bytes). find_chunk (suc n) name h (length (riff ++ b_chunk))) file_x
          ∙ find_chunk-riff_chunk n name (riff ++ b_chunk) 105 88 77 76 1024 x (f_chunk ++ d_chunk)
              (omega arith) (omega arith)
          ∙ rw nx (
              ap (find_chunk n name ((riff ++ b_chunk) ++ (x_chunk ++ (f_chunk ++ d_chunk))))
                (omega (arith, at_x))
              ∙ ap (λ (h : Bytes). find_chunk n name h 1658) (sym file_x)))

  at_fmt :
      (n : ℕ) (name : Bytes)
      → find_chunk (suc n) name file 1658
        ≡ (if bytes_eq fmt_name name then some (1666, 16) else find_chunk n name file 1682)
  at_fmt n name =
      ap (find_chunk (suc n) name file) (sym at_f)
      ∙ ap (λ (h : Bytes). find_chunk (suc n) name h (length ((riff ++ b_chunk) ++ x_chunk))) file_f
      ∙ find_chunk-riff_chunk n name ((riff ++ b_chunk) ++ x_chunk) 102 109 116 32 16 f d_chunk
          (omega arith) (omega arith)
      ∙ rw (at_f, ← file_f) refl

  find_fmt : find_chunk 3 fmt_name file 12 ≡ some (1666, 16)
  unfolding bytes_eq
  find_fmt = skip_two 1 fmt_name refl refl ∙ at_fmt 0 fmt_name

  find_data : s % 2 ≡ 0 → find_chunk 4 data_name file 12 ≡ some (1690, s)
  unfolding bytes_eq
  find_data even =
      skip_two 2 data_name refl refl
      ∙ at_fmt 1 data_name
      ∙ ap (find_chunk 1 data_name file) (sym at_d)
      ∙ ap
          (λ (h : Bytes).
            find_chunk 1 data_name h (length (((riff ++ b_chunk) ++ x_chunk) ++ f_chunk)))
          file_d
      ∙ find_chunk-riff_chunk 0 data_name (((riff ++ b_chunk) ++ x_chunk) ++ f_chunk) 100 97 116 97
          s [] [] small even
      ∙ rw at_d refl

  fmt_contents : slice file 1666 16 ≡ f
  fmt_contents =
      let before = (riff ++ b_chunk) ++ x_chunk in
      let position : 1666 ≡ length before + 8 = omega (arith, at_f) in
      let start : slice (f_chunk ++ d_chunk) 8 16 ≡ f =
        unfold slice le_bytes in
        ap (λ (n : ℕ). take n (f ++ d_chunk)) (sym lf) ∙ take-append f d_chunk in
      ap (λ (h : Bytes). slice h 1666 16) file_f
      ∙ ap (λ (i : ℕ). slice (before ++ (f_chunk ++ d_chunk)) i 16) position
      ∙ behind before (f_chunk ++ d_chunk) 8 16
      ∙ start

length-fmt_body : (h : WavHeaders) → length (fmt_body h) ≡ 16
unfolding fmt_body le_bytes
length-fmt_body h = refl

-- For a file of an even size below 4 GB that holds at least its header: the header has the 1690
-- bytes that the size counts for it, begins with RIFF, the size of the file and WAVE, and a reader
-- of RIFF files finds in it a format chunk of 16 bytes, with the channels, the sampling rate, the
-- bytes for each second and the bits for each sample of the WAVI block, and always the audio format
-- 1 and a block of 4 bytes, and behind it the sound, which starts right behind the header and has 8
-- bytes more than the file has there. The size behind RIFF is the whole file's.
pub wav_header_lem :
    (p : Printing) (h : WavHeaders) (file_size : ℕ)
    → length p.stack ≡ 33
    → sizeof_wav_header ≤ file_size
    → file_size < 2 ^ 32
    → file_size % 2 ≡ 0
    → let w = wav_header p h file_size in
      (length w ≡ sizeof_wav_header)
      × (slice w 0 4 ≡ riff_name)
      × (le_value (slice w 4 4) ≡ file_size)
      × (slice w 8 4 ≡ wave_name)
      × (find_chunk 3 fmt_name w 12 ≡ some (1666, 16))
      × (slice w 1666 16 ≡ fmt_body h)
      × (find_chunk 4 data_name w 12 ≡ some (sizeof_wav_header, file_size - sizeof_wav_header + 8))
unfolding wav_header
wav_header_lem p h file_size l large small even =
    let riff = riff_chunk riff_name (file_size % 4294967296) wave_name in
    let lr : length riff ≡ 12 = unfold le_bytes in refl in
    let b = wav_bext p h in
    let x = padded 1024 (ixml p (source_fps_nom h.file_hdr) (source_fps_denom h.file_hdr)) in
    let f = fmt_body h in
    let s = (file_size + 4294967296 - sizeof_wav_header + 8) % 4294967296 in
    let lb = length-wav_bext p h l in
    let lx =
      length-padded 1024 (ixml p (source_fps_nom h.file_hdr) (source_fps_denom h.file_hdr)) in
    let lf = length-fmt_body h in
    let ls : s < 4294967296 = omega arith in
    let whole : file_size % 4294967296 ≡ file_size = omega arith in
    let sized : slice (file riff b x f s lr lb lx lf ls) 4 4 ≡ le_bytes 4 (file_size % 4294967296) =
      unfold slice le_bytes in refl in
    (
      length-file riff b x f s lr lb lx lf ls,
      unfold slice le_bytes in refl,
      ap le_value sized ∙ rw whole (le_value-le_bytes 4 file_size (omega (arith, small))),
      unfold slice le_bytes in refl,
      find_fmt riff b x f s lr lb lx lf ls,
      fmt_contents riff b x f s lr lb lx lf ls,
      find_data riff b x f s lr lb lx lf ls (omega arith)
          ∙ ap (λ (n : ℕ). some (1690, n)) (omega arith),
    )
