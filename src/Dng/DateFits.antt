-- ===== src/Dng/DateFits.antt =====
-- The length of the date that mlvfs/dng.c writes, however many digits its numbers have.
use mlvfs.Base.{
  ℕ, ◌≤◌, ◌<◌, ◌∷◌, ◌++◌, length, length-append, ◌/◌, ◌+◌, arith, Bytes, IsBytes, All-append,
}
use mlvfs.Headers.{FrameHeaders}
use mlvfs.FrameNumber.{more_digits, more_digits-IsBytes, length-more_digits}
use mlvfs.Dng.Header.{word, last_two, two_decimals, four_digits, clock, format_datetime}

two_decimals-IsBytes : (n : ℕ) → IsBytes (two_decimals n)
unfolding two_decimals
two_decimals-IsBytes n =
    All-append (λ (b : ℕ). b < 256) (more_digits 10 (n / 100)) (last_two n)
      (more_digits-IsBytes 10 (n / 100)) (omega arith, (omega arith, tt))

four_digits-IsBytes : (n : ℕ) → IsBytes (four_digits n)
unfolding four_digits
four_digits-IsBytes n =
    All-append (λ (b : ℕ). b < 256) (more_digits 10 (n / 10000)) (last_two (n / 100) ++ last_two n)
      (more_digits-IsBytes 10 (n / 10000)) (omega arith)

length-two_decimals : (n : ℕ) → length (two_decimals n) ≤ 12
unfolding two_decimals
length-two_decimals n =
    omega (
      arith,
      length-append (more_digits 10 (n / 100)) (last_two n),
      length-more_digits 10 (n / 100),
    )

length-four_digits : (n : ℕ) → length (four_digits n) ≤ 14
unfolding four_digits
length-four_digits n = omega (
  arith,
  length-append (more_digits 10 (n / 10000)) (last_two (n / 100) ++ last_two n),
  length-more_digits 10 (n / 10000),
)

-- A number behind others and a separator.
after_separator :
    (a : Bytes) (b n : ℕ) (k : ℕ)
    → b < 256
    → IsBytes a × (length a ≤ k)
    → IsBytes (a ++ b ∷ two_decimals n) × (length (a ++ b ∷ two_decimals n) ≤ k + 13)
after_separator a b n k h (bytes, short) = (
  All-append (λ (c : ℕ). c < 256) a (b ∷ two_decimals n) bytes (h, two_decimals-IsBytes n),
  omega (arith, length-append a (b ∷ two_decimals n), length-two_decimals n),
)

-- The text of a date is of bytes, and short.
pub format_datetime_fits :
    (h : FrameHeaders) → IsBytes (format_datetime h) × (length (format_datetime h) ≤ 79)
unfolding format_datetime
format_datetime_fits h =
    let (days, hours, minutes, seconds) = clock h in
    let year = 1900 + word h.rtci_hdr 26 2 in
    let y : IsBytes (four_digits year) × (length (four_digits year) ≤ 14) =
      (four_digits-IsBytes year, length-four_digits year) in
    let m = after_separator _ b':' (word h.rtci_hdr 24 2 + 1) 14 (omega arith) y in
    let d = after_separator _ b':' days 27 (omega arith) m in
    let o = after_separator _ b' ' hours 40 (omega arith) d in
    let i = after_separator _ b':' minutes 53 (omega arith) o in
    after_separator _ b':' seconds 66 (omega arith) i
