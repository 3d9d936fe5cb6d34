-- ===== src/Wav/File/Tests.antt =====
-- The header of a WAV file of 48000 Hz stereo sound.
use mlvfs.Base.{
  ℕ, ◌+◌, ◌-◌, ◌≡◌, refl, some, [], ◌∷◌, ◌++◌, length, length-replicate, replicate, arith, le_value,
  le_bytes, slice,
}
use mlvfs.Wav.Headers.{WavHeaders, sizeof_wav_header}
use mlvfs.Wav.File.{Printing, fmt_body, wav_header, riff_name, wave_name, fmt_name, data_name}
use mlvfs.Wav.File.Chunks.{find_chunk}
use mlvfs.Wav.File.Riff.{wav_header_lem}

abbrev printing : Printing
printing = record { format_int = λ width n. replicate width 48; random = 7; stack = replicate 33 9 }

abbrev headers : WavHeaders
headers = record {
  file_hdr = replicate 44 0 ++ (le_bytes 4 25000 ++ le_bytes 4 1000);
  wavi_hdr =
      replicate 18 0
      ++ (le_bytes 2 2
          ++ (le_bytes 4 48000 ++ (le_bytes 4 192000 ++ (le_bytes 2 4 ++ le_bytes 2 16))));
  rtci_hdr = replicate 44 0;
  idnt_hdr = replicate 84 0;
}

-- Two channels, 48000 samples and 192000 bytes per second, and 16 bits per sample.
fmt_body_headers :
    fmt_body headers ≡ 1 ∷ 0 ∷ 2 ∷ 0 ∷ 128 ∷ 187 ∷ 0 ∷ 0 ∷ 0 ∷ 238 ∷ 2 ∷ 0 ∷ 4 ∷ 0 ∷ 16 ∷ 0 ∷ []
unfolding fmt_body le_bytes le_value slice
fmt_body_headers = refl

wav_header_lem_example :
    let w = wav_header printing headers 193690 in
    (length w ≡ sizeof_wav_header)
    × (slice w 0 4 ≡ riff_name)
    × (le_value (slice w 4 4) ≡ 193690)
    × (slice w 8 4 ≡ wave_name)
    × (find_chunk 3 fmt_name w 12 ≡ some (1666, 16))
    × (slice w 1666 16 ≡ fmt_body headers)
    × (find_chunk 4 data_name w 12 ≡ some (sizeof_wav_header, 193690 - sizeof_wav_header + 8))
wav_header_lem_example =
    wav_header_lem printing headers 193690 (length-replicate {A = ℕ} 33 9) (omega arith)
      (omega arith) (omega arith)
