-- ===== src/Wav/File.antt =====
-- The header of a WAV file: `struct wav_header` of mlvfs/wav.c, as `wav_get_data_direct` fills it.
pub mod Chunks
pub mod Riff
mod Tests
use mlvfs.Base.{
  ℕ, zero, suc, ◌+◌, ◌-◌, ◌*◌, ◌%◌, ◌^◌, Bool, true, false, Option, none, some, List, [], ◌∷◌, ◌++◌,
  length, take, replicate, if◌then◌else◌, Bytes, bytes_eq, le_value, le_bytes, slice, write_at,
}
use mlvfs.Wav.Headers.{WavHeaders, sizeof_wav_header, source_fps_nom, source_fps_denom}

abbrev ixml_project : Bytes
ixml_project =
    b'<' ∷ b'?' ∷ b'x' ∷ b'm' ∷ b'l' ∷ 32 ∷ b'v' ∷ b'e' ∷ b'r' ∷ b's' ∷ b'i' ∷ b'o' ∷ b'n' ∷ b'='
    ∷ b'"' ∷ b'1' ∷ b'.' ∷ b'0' ∷ b'"' ∷ 32 ∷ b'e' ∷ b'n' ∷ b'c' ∷ b'o' ∷ b'd' ∷ b'i' ∷ b'n' ∷ b'g'
    ∷ b'=' ∷ b'"' ∷ b'U' ∷ b'T' ∷ b'F' ∷ b'-' ∷ b'8' ∷ b'"' ∷ b'?' ∷ b'>' ∷ b'<' ∷ b'B' ∷ b'W'
    ∷ b'F' ∷ b'X' ∷ b'M' ∷ b'L' ∷ b'>' ∷ b'<' ∷ b'I' ∷ b'X' ∷ b'M' ∷ b'L' ∷ b'_' ∷ b'V' ∷ b'E'
    ∷ b'R' ∷ b'S' ∷ b'I' ∷ b'O' ∷ b'N' ∷ b'>' ∷ b'1' ∷ b'.' ∷ b'5' ∷ b'<' ∷ b'/' ∷ b'I' ∷ b'X'
    ∷ b'M' ∷ b'L' ∷ b'_' ∷ b'V' ∷ b'E' ∷ b'R' ∷ b'S' ∷ b'I' ∷ b'O' ∷ b'N' ∷ b'>' ∷ b'<' ∷ b'P'
    ∷ b'R' ∷ b'O' ∷ b'J' ∷ b'E' ∷ b'C' ∷ b'T' ∷ b'>' ∷ []

abbrev ixml_note : Bytes
ixml_note =
    b'<' ∷ b'/' ∷ b'P' ∷ b'R' ∷ b'O' ∷ b'J' ∷ b'E' ∷ b'C' ∷ b'T' ∷ b'>' ∷ b'<' ∷ b'N' ∷ b'O' ∷ b'T'
    ∷ b'E' ∷ b'>' ∷ []

abbrev ixml_keywords : Bytes
ixml_keywords =
    b'<' ∷ b'/' ∷ b'N' ∷ b'O' ∷ b'T' ∷ b'E' ∷ b'>' ∷ b'<' ∷ b'C' ∷ b'I' ∷ b'R' ∷ b'C' ∷ b'L' ∷ b'E'
    ∷ b'D' ∷ b'>' ∷ b'F' ∷ b'A' ∷ b'L' ∷ b'S' ∷ b'E' ∷ b'<' ∷ b'/' ∷ b'C' ∷ b'I' ∷ b'R' ∷ b'C'
    ∷ b'L' ∷ b'E' ∷ b'D' ∷ b'>' ∷ b'<' ∷ b'B' ∷ b'L' ∷ b'A' ∷ b'C' ∷ b'K' ∷ b'M' ∷ b'A' ∷ b'G'
    ∷ b'I' ∷ b'C' ∷ b'-' ∷ b'K' ∷ b'E' ∷ b'Y' ∷ b'W' ∷ b'O' ∷ b'R' ∷ b'D' ∷ b'S' ∷ b'>' ∷ []

abbrev ixml_tape : Bytes
ixml_tape =
    b'<' ∷ b'/' ∷ b'B' ∷ b'L' ∷ b'A' ∷ b'C' ∷ b'K' ∷ b'M' ∷ b'A' ∷ b'G' ∷ b'I' ∷ b'C' ∷ b'-' ∷ b'K'
    ∷ b'E' ∷ b'Y' ∷ b'W' ∷ b'O' ∷ b'R' ∷ b'D' ∷ b'S' ∷ b'>' ∷ b'<' ∷ b'T' ∷ b'A' ∷ b'P' ∷ b'E'
    ∷ b'>' ∷ []

abbrev ixml_scene : Bytes
ixml_scene =
    b'<' ∷ b'/' ∷ b'T' ∷ b'A' ∷ b'P' ∷ b'E' ∷ b'>' ∷ b'<' ∷ b'S' ∷ b'C' ∷ b'E' ∷ b'N' ∷ b'E' ∷ b'>'
    ∷ []

abbrev ixml_shot : Bytes
ixml_shot =
    b'<' ∷ b'/' ∷ b'S' ∷ b'C' ∷ b'E' ∷ b'N' ∷ b'E' ∷ b'>' ∷ b'<' ∷ b'B' ∷ b'L' ∷ b'A' ∷ b'C' ∷ b'K'
    ∷ b'M' ∷ b'A' ∷ b'G' ∷ b'I' ∷ b'C' ∷ b'-' ∷ b'S' ∷ b'H' ∷ b'O' ∷ b'T' ∷ b'>' ∷ []

abbrev ixml_take : Bytes
ixml_take =
    b'<' ∷ b'/' ∷ b'B' ∷ b'L' ∷ b'A' ∷ b'C' ∷ b'K' ∷ b'M' ∷ b'A' ∷ b'G' ∷ b'I' ∷ b'C' ∷ b'-' ∷ b'S'
    ∷ b'H' ∷ b'O' ∷ b'T' ∷ b'>' ∷ b'<' ∷ b'T' ∷ b'A' ∷ b'K' ∷ b'E' ∷ b'>' ∷ []

abbrev ixml_master : Bytes
ixml_master =
    b'<' ∷ b'/' ∷ b'T' ∷ b'A' ∷ b'K' ∷ b'E' ∷ b'>' ∷ b'<' ∷ b'B' ∷ b'L' ∷ b'A' ∷ b'C' ∷ b'K' ∷ b'M'
    ∷ b'A' ∷ b'G' ∷ b'I' ∷ b'C' ∷ b'-' ∷ b'A' ∷ b'N' ∷ b'G' ∷ b'L' ∷ b'E' ∷ b'>' ∷ b'm' ∷ b's'
    ∷ b'<' ∷ b'/' ∷ b'B' ∷ b'L' ∷ b'A' ∷ b'C' ∷ b'K' ∷ b'M' ∷ b'A' ∷ b'G' ∷ b'I' ∷ b'C' ∷ b'-'
    ∷ b'A' ∷ b'N' ∷ b'G' ∷ b'L' ∷ b'E' ∷ b'>' ∷ b'<' ∷ b'S' ∷ b'P' ∷ b'E' ∷ b'E' ∷ b'D' ∷ b'>'
    ∷ b'<' ∷ b'M' ∷ b'A' ∷ b'S' ∷ b'T' ∷ b'E' ∷ b'R' ∷ b'_' ∷ b'S' ∷ b'P' ∷ b'E' ∷ b'E' ∷ b'D'
    ∷ b'>' ∷ []

abbrev ixml_slash : Bytes
ixml_slash = b'/' ∷ []

abbrev ixml_current : Bytes
ixml_current =
    b'<' ∷ b'/' ∷ b'M' ∷ b'A' ∷ b'S' ∷ b'T' ∷ b'E' ∷ b'R' ∷ b'_' ∷ b'S' ∷ b'P' ∷ b'E' ∷ b'E' ∷ b'D'
    ∷ b'>' ∷ b'<' ∷ b'C' ∷ b'U' ∷ b'R' ∷ b'R' ∷ b'E' ∷ b'N' ∷ b'T' ∷ b'_' ∷ b'S' ∷ b'P' ∷ b'E'
    ∷ b'E' ∷ b'D' ∷ b'>' ∷ []

abbrev ixml_timecode : Bytes
ixml_timecode =
    b'<' ∷ b'/' ∷ b'C' ∷ b'U' ∷ b'R' ∷ b'R' ∷ b'E' ∷ b'N' ∷ b'T' ∷ b'_' ∷ b'S' ∷ b'P' ∷ b'E' ∷ b'E'
    ∷ b'D' ∷ b'>' ∷ b'<' ∷ b'T' ∷ b'I' ∷ b'M' ∷ b'E' ∷ b'C' ∷ b'O' ∷ b'D' ∷ b'E' ∷ b'_' ∷ b'R'
    ∷ b'A' ∷ b'T' ∷ b'E' ∷ b'>' ∷ []

abbrev ixml_end : Bytes
ixml_end =
    b'<' ∷ b'/' ∷ b'T' ∷ b'I' ∷ b'M' ∷ b'E' ∷ b'C' ∷ b'O' ∷ b'D' ∷ b'E' ∷ b'_' ∷ b'R' ∷ b'A' ∷ b'T'
    ∷ b'E' ∷ b'>' ∷ b'<' ∷ b'T' ∷ b'I' ∷ b'M' ∷ b'E' ∷ b'C' ∷ b'O' ∷ b'D' ∷ b'E' ∷ b'_' ∷ b'F'
    ∷ b'L' ∷ b'A' ∷ b'G' ∷ b'>' ∷ b'N' ∷ b'D' ∷ b'F' ∷ b'<' ∷ b'/' ∷ b'T' ∷ b'I' ∷ b'M' ∷ b'E'
    ∷ b'C' ∷ b'O' ∷ b'D' ∷ b'E' ∷ b'_' ∷ b'F' ∷ b'L' ∷ b'A' ∷ b'G' ∷ b'>' ∷ b'<' ∷ b'/' ∷ b'S'
    ∷ b'P' ∷ b'E' ∷ b'E' ∷ b'D' ∷ b'>' ∷ b'<' ∷ b'/' ∷ b'B' ∷ b'W' ∷ b'F' ∷ b'X' ∷ b'M' ∷ b'L'
    ∷ b'>' ∷ []

-- `snprintf` of a number with leading zeros up to a width, what `rand` returns, and what the stack
-- leaves in `temp`.
pub record Printing : Type 0 where
  pub format_int : ℕ → ℕ → Bytes
  pub random : ℕ
  pub stack : Bytes

-- `snprintf(temp, 33, "%s", text)`.
unfoldable pub print_temp : Bytes → Bytes → Bytes
print_temp text temp = write_at temp 0 (take 32 text ++ 0 ∷ [])

-- A text in a field of zeros, with its terminator.
unfoldable pub padded : ℕ → Bytes → Bytes
padded n text = take n (take (n - 1) text ++ replicate n 0)

abbrev magic_lantern : Bytes
magic_lantern =
    b'M' ∷ b'a' ∷ b'g' ∷ b'i' ∷ b'c' ∷ 32 ∷ b'L' ∷ b'a' ∷ b'n' ∷ b't' ∷ b'e' ∷ b'r' ∷ b'n' ∷ []

abbrev jpcan : Bytes
jpcan = b'J' ∷ b'P' ∷ b'C' ∷ b'A' ∷ b'N' ∷ []

abbrev pub riff_name : Bytes
riff_name = b'R' ∷ b'I' ∷ b'F' ∷ b'F' ∷ []

abbrev pub wave_name : Bytes
wave_name = b'W' ∷ b'A' ∷ b'V' ∷ b'E' ∷ []

abbrev pub bext_name : Bytes
bext_name = b'b' ∷ b'e' ∷ b'x' ∷ b't' ∷ []

abbrev pub ixml_name : Bytes
ixml_name = b'i' ∷ b'X' ∷ b'M' ∷ b'L' ∷ []

abbrev pub fmt_name : Bytes
fmt_name = b'f' ∷ b'm' ∷ b't' ∷ 32 ∷ []

abbrev pub data_name : Bytes
data_name = b'd' ∷ b'a' ∷ b't' ∷ b'a' ∷ []

-- The bytes before the first zero.
unfoldable pub text_of : Bytes → Bytes
text_of [] = []
text_of (b ∷ bs) = let rest = text_of bs in elim b [ zero ↦ [] | suc c ↦ suc c ∷ rest ]

abbrev field16 : Bytes → ℕ → ℕ
field16 header offset = le_value (slice header offset 2)

-- A chunk: its name, its size and its bytes.
abbrev pub riff_chunk : Bytes → ℕ → Bytes → Bytes
riff_chunk name size body = name ++ (le_bytes 4 size ++ body)

unfoldable pub fmt_body : WavHeaders → Bytes
fmt_body h =
    le_bytes 2 1
    ++ (le_bytes 2 (field16 h.wavi_hdr 18)
        ++ (le_bytes 4 (le_value (slice h.wavi_hdr 20 4))
            ++ (le_bytes 4 (le_value (slice h.wavi_hdr 24 4))
                ++ (le_bytes 2 4 ++ le_bytes 2 (field16 h.wavi_hdr 30)))))

module _ (p : Printing) where
  unfoldable pub ixml : ℕ → ℕ → Bytes
  ixml nom denom =
      let one = p.format_int 1 1 in
      let rate = λ (sep : Bytes). p.format_int 1 nom ++ (sep ++ p.format_int 1 denom) in
      ixml_project
      ++ (magic_lantern
          ++ (ixml_note
              ++ (ixml_keywords
                  ++ (ixml_tape
                      ++ (one
                          ++ (ixml_scene
                              ++ (one
                                  ++ (ixml_shot
                                      ++ (one
                                          ++ (ixml_take
                                              ++ (one
                                                  ++ (ixml_master
                                                      ++ (rate ixml_slash
                                                          ++ (ixml_current
                                                            ++ (rate ixml_slash
                                                            ++ (ixml_timecode
                                                            ++ (rate ixml_slash
                                                            ++ ixml_end)))))))))))))))))

  unfoldable pub reference : WavHeaders → Bytes
  reference h =
      jpcan
      ++ (p.format_int 4 (le_value (slice h.idnt_hdr 48 4))
          ++ (take 8 (text_of (slice h.idnt_hdr 52 32))
              ++ (p.format_int 2 (field16 h.rtci_hdr 20)
                  ++ (p.format_int 2 (field16 h.rtci_hdr 18)
                      ++ (p.format_int 2 (field16 h.rtci_hdr 16) ++ p.format_int 9 p.random)))))

  -- The month is that of the clock block, which counts from 0.
  unfoldable pub origination_date : WavHeaders → Bytes
  origination_date h =
      p.format_int 4 (1900 + field16 h.rtci_hdr 26)
      ++ (b':' ∷ p.format_int 2 (field16 h.rtci_hdr 24))
      ++ (b':' ∷ p.format_int 2 (field16 h.rtci_hdr 22))

  unfoldable pub origination_time : WavHeaders → Bytes
  origination_time h =
      p.format_int 2 (field16 h.rtci_hdr 20)
      ++ (b':' ∷ p.format_int 2 (field16 h.rtci_hdr 18))
      ++ (b':' ∷ p.format_int 2 (field16 h.rtci_hdr 16))

  -- `struct wav_bext`. What `temp` holds behind a text is copied with it.
  unfoldable pub wav_bext : WavHeaders → Bytes
  wav_bext h =
      let named = print_temp (text_of (slice h.idnt_hdr 16 68)) p.stack in
      let referred = print_temp (reference h) named in
      let dated = print_temp (origination_date h) referred in
      let timed = print_temp (origination_time h) dated in
      replicate 256 0
      ++ (take 32 named
          ++ (take 32 referred ++ (take 10 dated ++ (take 8 timed ++ replicate 268 0))))

  unfoldable pub wav_header : WavHeaders → ℕ → Bytes
  wav_header h file_size =
      riff_chunk riff_name (file_size % 2 ^ 32) wave_name
      ++ (riff_chunk bext_name 606 (wav_bext h)
          ++ (riff_chunk ixml_name 1024
                (padded 1024 (ixml (source_fps_nom h.file_hdr) (source_fps_denom h.file_hdr)))
              ++ (riff_chunk fmt_name 16 (fmt_body h)
                  ++ riff_chunk data_name ((file_size + 2 ^ 32 - sizeof_wav_header + 8) % 2 ^ 32)
                      [])))
