-- ===== src/Unpack/Pixel.antt =====
-- The pixel that mlvfs/dng.c takes out of two words.
use mlvfs.Base.{
  subst, eq_of_beq, ℕ, zero, suc, ◌+◌, ◌-◌, ◌*◌, ◌/◌, ◌%◌, ◌^◌, ◌<◌, ◌≡◌, ◌⊎◌, inl, inr, arith,
  Bool-cases, ◌==◌,
}
use mlvfs.Unpack.{ror, fetch_pixel}

-- The `bpp` bits from `shift` on, counted from the top, of two words with the first on top.
abbrev pub digit : ℕ → ℕ → ℕ → ℕ → ℕ
digit bpp shift first second = (first * 65536 + second) / 2 ^ (32 - bpp - shift) % 2 ^ bpp

abbrev Agrees : ℕ → ℕ → Type 0
Agrees bpp shift =
    (low high : ℕ)
    → low < 65536
    → high < 65536
    → fetch_pixel bpp shift low high ≡ digit bpp shift low high

-- Two positions side by side, and the first `n` such pairs.
abbrev AgreesPair : ℕ → ℕ → Type 0
AgreesPair bpp k = Agrees bpp (2 * k) × Agrees bpp (2 * k + 1)

abbrev AgreesBelow : ℕ → ℕ → Type 0
AgreesBelow bpp zero = Unit
AgreesBelow bpp (suc n) = AgreesPair bpp n × AgreesBelow bpp n

AgreesBelow-pair : (bpp n k : ℕ) → AgreesBelow bpp n → k < n → AgreesPair bpp k
AgreesBelow-pair bpp zero k a h = absurd (omega arith)
AgreesBelow-pair bpp (suc n) k a h = elim (Bool-cases (k == n)) [
  | inl e ↦ let same : k ≡ n = ground (arith, e) in rw same a.0
  | inr e ↦ AgreesBelow-pair bpp n k a.1 (ground (arith, e))
]

AgreesBelow-at : (bpp shift : ℕ) → AgreesBelow bpp 8 → shift < 16 → Agrees bpp shift
AgreesBelow-at bpp shift a h =
    let pair = AgreesBelow-pair bpp 8 (shift / 2) a (omega arith) in
    elim (Bool-cases (shift % 2 == 0)) [
      | inl e ↦
          let even : 2 * (shift / 2) ≡ shift = omega (arith, eq_of_beq (shift % 2) 0 e) in
          subst (Agrees bpp) even pair.0
      | inr e ↦
          let odd : 2 * (shift / 2) + 1 ≡ shift = ground (arith, e) in subst (Agrees bpp) odd pair.1
    ]

eight-AgreesBelow : AgreesBelow 8 8
unfolding fetch_pixel ror
eight-AgreesBelow = (
  (λ l h p q. omega arith, λ l h p q. omega arith),
  (
    (λ l h p q. omega arith, λ l h p q. omega arith),
    (
      (λ l h p q. omega arith, λ l h p q. omega arith),
      (
        (λ l h p q. omega arith, λ l h p q. omega arith),
        (
          (λ l h p q. omega arith, λ l h p q. omega arith),
          (
            (λ l h p q. omega arith, λ l h p q. omega arith),
            (
              (λ l h p q. omega arith, λ l h p q. omega arith),
              ((λ l h p q. omega arith, λ l h p q. omega arith), tt),
            ),
          ),
        ),
      ),
    ),
  ),
)

ten-AgreesBelow : AgreesBelow 10 8
unfolding fetch_pixel ror
ten-AgreesBelow = (
  (λ l h p q. omega arith, λ l h p q. omega arith),
  (
    (λ l h p q. omega arith, λ l h p q. omega arith),
    (
      (λ l h p q. omega arith, λ l h p q. omega arith),
      (
        (λ l h p q. omega arith, λ l h p q. omega arith),
        (
          (λ l h p q. omega arith, λ l h p q. omega arith),
          (
            (λ l h p q. omega arith, λ l h p q. omega arith),
            (
              (λ l h p q. omega arith, λ l h p q. omega arith),
              ((λ l h p q. omega arith, λ l h p q. omega arith), tt),
            ),
          ),
        ),
      ),
    ),
  ),
)

twelve-AgreesBelow : AgreesBelow 12 8
unfolding fetch_pixel ror
twelve-AgreesBelow = (
  (λ l h p q. omega arith, λ l h p q. omega arith),
  (
    (λ l h p q. omega arith, λ l h p q. omega arith),
    (
      (λ l h p q. omega arith, λ l h p q. omega arith),
      (
        (λ l h p q. omega arith, λ l h p q. omega arith),
        (
          (λ l h p q. omega arith, λ l h p q. omega arith),
          (
            (λ l h p q. omega arith, λ l h p q. omega arith),
            (
              (λ l h p q. omega arith, λ l h p q. omega arith),
              ((λ l h p q. omega arith, λ l h p q. omega arith), tt),
            ),
          ),
        ),
      ),
    ),
  ),
)

fourteen-AgreesBelow : AgreesBelow 14 8
unfolding fetch_pixel ror
fourteen-AgreesBelow = (
  (λ l h p q. omega arith, λ l h p q. omega arith),
  (
    (λ l h p q. omega arith, λ l h p q. omega arith),
    (
      (λ l h p q. omega arith, λ l h p q. omega arith),
      (
        (λ l h p q. omega arith, λ l h p q. omega arith),
        (
          (λ l h p q. omega arith, λ l h p q. omega arith),
          (
            (λ l h p q. omega arith, λ l h p q. omega arith),
            (
              (λ l h p q. omega arith, λ l h p q. omega arith),
              ((λ l h p q. omega arith, λ l h p q. omega arith), tt),
            ),
          ),
        ),
      ),
    ),
  ),
)

-- With 8, 10, 12 or 14 bits per pixel, the rotation and the mask take out of two 16-bit words the bits of the
-- pixel, at every one of the 16 positions where it can start: the words are one number with the first
-- on top, and the bits stand from that position on, counted from the top.
pub fetch_pixel_lem :
    (bpp shift low high : ℕ)
    → ((bpp ≡ 8) ⊎ (bpp ≡ 10)) ⊎ ((bpp ≡ 12) ⊎ (bpp ≡ 14))
    → shift < 16
    → low < 65536
    → high < 65536
    → fetch_pixel bpp shift low high ≡ digit bpp shift low high
fetch_pixel_lem bpp shift low high (inl (inl e)) s l h =
    rw e (AgreesBelow-at 8 shift eight-AgreesBelow s low high l h)
fetch_pixel_lem bpp shift low high (inl (inr e)) s l h =
    rw e (AgreesBelow-at 10 shift ten-AgreesBelow s low high l h)
fetch_pixel_lem bpp shift low high (inr (inl e)) s l h =
    rw e (AgreesBelow-at 12 shift twelve-AgreesBelow s low high l h)
fetch_pixel_lem bpp shift low high (inr (inr e)) s l h =
    rw e (AgreesBelow-at 14 shift fourteen-AgreesBelow s low high l h)
