-- ===== src/Dng/DateTime.antt =====
-- The date that mlvfs/dng.c writes, as a reader of its digits finds it.
use mlvfs.Base.{
  ℕ, ap, ◌++◌, ◌+◌, ◌*◌, ◌/◌, ◌%◌, ◌^◌, ◌<◌, ◌≡◌, refl, ◌∙◌, [], ◌∷◌, length, arith, Bytes, slice,
}
use mlvfs.Headers.{FrameHeaders}
use mlvfs.Getattr.{elapsed}
use mlvfs.FrameNumber.{atoi_digits, atoi_digits-digit, more_digits_none}
use mlvfs.Dng.Header.{word, last_two, two_decimals, four_digits, clock, format_datetime}

-- The number that stands at an offset of a text.
abbrev pub number_at : Bytes → ℕ → ℕ → ℕ
number_at text offset digits = atoi_digits 0 (slice text offset digits)

atoi_digits-last_two : (n : ℕ) → n < 100 → atoi_digits 0 (last_two n) ≡ n
atoi_digits-last_two n h =
    atoi_digits-digit 0 (n / 10 % 10) ((48 + n % 10) ∷ []) (omega arith)
    ∙ atoi_digits-digit (0 * 10 + n / 10 % 10) (n % 10) [] (omega arith)
    ∙ unfold atoi_digits in omega arith

abbrev last_four : ℕ → Bytes
last_four n = last_two (n / 100) ++ last_two n

atoi_digits-last_four : (n : ℕ) → n < 10000 → atoi_digits 0 (last_four n) ≡ n
atoi_digits-last_four n h =
    let a = n / 100 / 10 % 10 in
    let b = n / 100 % 10 in
    let c = n / 10 % 10 in
    atoi_digits-digit 0 a ((48 + b) ∷ last_two n) (omega arith)
    ∙ atoi_digits-digit (0 * 10 + a) b (last_two n) (omega arith)
    ∙ atoi_digits-digit ((0 * 10 + a) * 10 + b) c ((48 + n % 10) ∷ []) (omega arith)
    ∙ atoi_digits-digit (((0 * 10 + a) * 10 + b) * 10 + c) (n % 10) [] (omega arith)
    ∙ unfold atoi_digits in omega arith

two_decimals-last_two : (n : ℕ) → n < 100 → two_decimals n ≡ last_two n
unfolding two_decimals
two_decimals-last_two n h = ap (◌++ last_two n) (more_digits_none 10 (n / 100) (omega arith))

four_digits-last_four : (n : ℕ) → n < 10000 → four_digits n ≡ last_four n
unfolding four_digits
four_digits-last_four n h = ap (◌++ last_four n) (more_digits_none 10 (n / 10000) (omega arith))

-- The text, where no number needs more digits than its format asks for.
abbrev plain_datetime : FrameHeaders → Bytes
plain_datetime h =
    let (days, hours, minutes, seconds) = clock h in
    last_four (1900 + word h.rtci_hdr 26 2)
    ++ (b':' ∷ last_two (word h.rtci_hdr 24 2 + 1))
    ++ (b':' ∷ last_two days)
    ++ (b' ' ∷ last_two hours)
    ++ (b':' ∷ last_two minutes)
    ++ (b':' ∷ last_two seconds)

format_datetime-plain_datetime :
    (h : FrameHeaders)
    → 1900 + word h.rtci_hdr 26 2 < 10000
    → word h.rtci_hdr 24 2 + 1 < 100
    → (clock h).0 < 100
    → format_datetime h ≡ plain_datetime h
unfolding format_datetime
format_datetime-plain_datetime h year month day =
    let hours : (clock h).1 < 100 = unfold clock in omega arith in
    let minutes : (clock h).2 < 100 = unfold clock in omega arith in
    let seconds : (clock h).3 < 100 = unfold clock in omega arith in
    rw
      (
        four_digits-last_four (1900 + word h.rtci_hdr 26 2) year,
        two_decimals-last_two (word h.rtci_hdr 24 2 + 1) month,
        two_decimals-last_two (clock h).0 day,
        two_decimals-last_two (clock h).1 hours,
        two_decimals-last_two (clock h).2 minutes,
        two_decimals-last_two (clock h).3 seconds,
      )
      refl

-- The seconds of a clock with days.
abbrev pub seconds_of : ℕ → ℕ → ℕ → ℕ → ℕ
seconds_of days hours minutes seconds = days * 86400 + hours * 3600 + minutes * 60 + seconds

-- Where the seconds of the clock block and those since then fit 32 bits, the year is below 10000,
-- the month below 99, and the days with those since then below 100, the date is a text of 19
-- characters. Its year and month are those of the clock block. Its hour, minute and second are
-- below 24, 60 and 60, and with its day they are the time of the clock block with the whole seconds
-- since then, in a month without end.
pub format_datetime_lem :
    (h : FrameHeaders)
    → word h.rtci_hdr 16 2 + elapsed h / 1000000 < 2 ^ 32
    → 1900 + word h.rtci_hdr 26 2 < 10000
    → word h.rtci_hdr 24 2 + 1 < 100
    → (clock h).0 < 100
    → let text = format_datetime h in
      (length text ≡ 19)
      × (number_at text 0 4 ≡ 1900 + word h.rtci_hdr 26 2)
      × (number_at text 5 2 ≡ word h.rtci_hdr 24 2 + 1)
      × (number_at text 11 2 < 24)
      × (number_at text 14 2 < 60)
      × (number_at text 17 2 < 60)
      × (seconds_of
            (number_at text 8 2)
            (number_at text 11 2)
            (number_at text 14 2)
            (number_at text 17 2)
          ≡ seconds_of
              (word h.rtci_hdr 22 2)
              (word h.rtci_hdr 20 2)
              (word h.rtci_hdr 18 2)
              (word h.rtci_hdr 16 2 + elapsed h / 1000000))
format_datetime_lem h fits year month day =
    let hours : (clock h).1 < 24 = unfold clock in omega arith in
    let minutes : (clock h).2 < 60 = unfold clock in omega arith in
    let seconds : (clock h).3 < 60 = unfold clock in omega arith in
    let total : seconds_of (clock h).0 (clock h).1 (clock h).2 (clock h).3
        ≡ seconds_of (word h.rtci_hdr 22 2) (word h.rtci_hdr 20 2) (word h.rtci_hdr 18 2)
            (word h.rtci_hdr 16 2 + elapsed h / 1000000) =
      unfold clock in omega arith in
    let n0 : number_at (plain_datetime h) 0 4 ≡ 1900 + word h.rtci_hdr 26 2 =
      unfold slice in atoi_digits-last_four (1900 + word h.rtci_hdr 26 2) year in
    let n5 : number_at (plain_datetime h) 5 2 ≡ word h.rtci_hdr 24 2 + 1 =
      unfold slice in atoi_digits-last_two (word h.rtci_hdr 24 2 + 1) month in
    let n8 : number_at (plain_datetime h) 8 2 ≡ (clock h).0 =
      unfold slice in atoi_digits-last_two (clock h).0 day in
    let n11 : number_at (plain_datetime h) 11 2 ≡ (clock h).1 =
      unfold slice in atoi_digits-last_two (clock h).1 (omega (arith, hours)) in
    let n14 : number_at (plain_datetime h) 14 2 ≡ (clock h).2 =
      unfold slice in atoi_digits-last_two (clock h).2 (omega (arith, minutes)) in
    let n17 : number_at (plain_datetime h) 17 2 ≡ (clock h).3 =
      unfold slice in atoi_digits-last_two (clock h).3 (omega (arith, seconds)) in
    rw (format_datetime-plain_datetime h year month day) (
      refl,
      n0,
      n5,
      omega (arith, n11, hours),
      omega (arith, n14, minutes),
      omega (arith, n17, seconds),
      omega (arith, n8, n11, n14, n17, total),
    )
