-- ===== src/Wav/File/Chunks.antt =====
-- One chunk of a RIFF file, and the sizes of what a WAV header holds.
use mlvfs.Base.{
  ℕ, zero, suc, ◌+◌, ◌-◌, ◌%◌, ◌^◌, ◌≤◌, ◌<◌, ◌≡◌, refl, sym, ap, ◌∙◌, Option, none, some, [], ◌∷◌,
  ◌++◌, length, length-append, length-take, length-replicate, take, replicate, if◌then◌else◌, arith,
  Bytes, bytes_eq, le_value, le_bytes, length-le_bytes, le_value-le_bytes, slice,
  slice-append_right, length-write_at,
}
use mlvfs.Wav.Headers.{WavHeaders}
use mlvfs.Wav.File.{
  Printing, print_temp, padded, wav_bext, riff_chunk, reference, origination_date, origination_time,
  text_of,
}

-- The position and the size of the first chunk of a name, among so many from a position on. A
-- chunk starts at an even position.
unfoldable pub find_chunk : ℕ → Bytes → Bytes → ℕ → Option (ℕ × ℕ)
find_chunk zero name file position = none
find_chunk (suc n) name file position =
    let size = le_value (slice file (position + 4) 4) in
    let rest = find_chunk n name file (position + 8 + (size + size % 2)) in
    if bytes_eq (slice file position 4) name then some (position + 8, size) else rest

abbrev four : ℕ → ℕ → ℕ → ℕ → Bytes
four a b c d = a ∷ b ∷ c ∷ d ∷ []

pub behind : (pre xs : Bytes) (i k : ℕ) → slice (pre ++ xs) (length pre + i) k ≡ slice xs i k
behind pre xs i k =
    let e : length pre + i - length pre ≡ i = omega arith in
    slice-append_right pre xs (length pre + i) k (omega arith) ∙ ap (λ (j : ℕ). slice xs j k) e

-- A reader at a chunk takes it or goes to the next.
pub find_chunk-riff_chunk :
    (n : ℕ) (name pre : Bytes) (a b c d size : ℕ) (body rest : Bytes)
    → size < 2 ^ 32
    → size % 2 ≡ 0
    → let file = pre ++ (riff_chunk (four a b c d) size body ++ rest) in
      find_chunk (suc n) name file (length pre) ≡ (
        if bytes_eq (four a b c d) name
        then some (length pre + 8, size)
        else find_chunk n name file (length pre + 8 + size))
unfolding find_chunk
find_chunk-riff_chunk n name pre a b c d size body rest small even =
    let xs = riff_chunk (four a b c d) size body ++ rest in
    let z : length pre + 0 ≡ length pre = omega arith in
    let named : slice (pre ++ xs) (length pre) 4 ≡ four a b c d =
      ap (λ (i : ℕ). slice (pre ++ xs) i 4) (sym z) ∙ behind pre xs 0 4 ∙ unfold slice in refl in
    let sized : slice (pre ++ xs) (length pre + 4) 4 ≡ le_bytes 4 size =
      behind pre xs 4 4 ∙ unfold slice le_bytes in refl in
    let value : le_value (slice (pre ++ xs) (length pre + 4) 4) ≡ size =
      ap le_value sized ∙ le_value-le_bytes 4 size (omega (arith, small)) in
    let padding : size + size % 2 ≡ size = omega arith in rw (value, padding, named) refl

pub length-riff_chunk :
    (a b c d size : ℕ) (body : Bytes)
    → length (riff_chunk (four a b c d) size body) ≡ 8 + length body
length-riff_chunk a b c d size body =
    omega (arith, length-append (le_bytes 4 size) body, length-le_bytes 4 size)

length-print_temp : (text temp : Bytes) → length temp ≡ 33 → length (print_temp text temp) ≡ 33
unfolding print_temp
length-print_temp text temp h =
    length-write_at temp 0 (take 32 text ++ 0 ∷ [])
      (omega (arith, length-append (take 32 text) (0 ∷ []), length-take 32 text))
    ∙ h

pub length-padded : (n : ℕ) (text : Bytes) → length (padded n text) ≡ n
unfolding padded
length-padded n text = omega (
  arith,
  length-take n (take (n - 1) text ++ replicate n 0),
  length-append (take (n - 1) text) (replicate n 0),
  length-replicate {A = ℕ} n 0,
)

cut : (n : ℕ) (temp : Bytes) → n ≤ 33 → length temp ≡ 33 → length (take n temp) ≡ n
cut n temp h l = omega (arith, length-take n temp)

pub length-wav_bext :
    (p : Printing) (h : WavHeaders) → length p.stack ≡ 33 → length (wav_bext p h) ≡ 606
unfolding wav_bext
length-wav_bext p h l =
    let named = print_temp (text_of (slice h.idnt_hdr 16 68)) p.stack in
    let referred = print_temp (reference p h) named in
    let dated = print_temp (origination_date p h) referred in
    let timed = print_temp (origination_time p h) dated in
    let l1 = length-print_temp (text_of (slice h.idnt_hdr 16 68)) p.stack l in
    let l2 = length-print_temp (reference p h) named l1 in
    let l3 = length-print_temp (origination_date p h) referred l2 in
    let l4 = length-print_temp (origination_time p h) dated l3 in
    let c1 = cut 32 named (omega arith) l1 in
    let c2 = cut 32 referred (omega arith) l2 in
    let c3 = cut 10 dated (omega arith) l3 in
    let c4 = cut 8 timed (omega arith) l4 in
    let end = replicate {A = ℕ} 268 0 in
    omega (
      arith,
      c1,
      c2,
      c3,
      c4,
      length-append (replicate {A = ℕ} 256 0)
          (take 32 named ++ (take 32 referred ++ (take 10 dated ++ (take 8 timed ++ end)))),
      length-append (take 32 named) (take 32 referred ++ (take 10 dated ++ (take 8 timed ++ end))),
      length-append (take 32 referred) (take 10 dated ++ (take 8 timed ++ end)),
      length-append (take 10 dated) (take 8 timed ++ end),
      length-append (take 8 timed) end,
    )
