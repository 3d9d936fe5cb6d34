-- ===== src/Stripes/Columns.antt =====
-- The correction of stripes is one function for each column.
use mlvfs.Base.{
  ℕ, zero, suc, ◌+◌, ◌-◌, ◌*◌, ◌/◌, ◌%◌, ◌≤◌, ◌<◌, ◌≡◌, refl, ap, ◌∙◌, min, true, some, List, [],
  ◌∷◌, get_or, length, arith,
}
use mlvfs.Stripes.{
  StripesCorrection, fixp_one, correct_pixel, correct_pixels, stripes_apply_correction,
}

get_or-correct_pixels :
    (black white : ℕ) (cs : List ℕ) (start i k : ℕ) (image : List ℕ)
    → k < length image
    → get_or (correct_pixels black white cs start i image) k 0
      ≡ correct_pixel black white (get_or cs ((i + k + start) % 8) 0) (get_or image k 0)
unfolding correct_pixels
get_or-correct_pixels black white cs start i k [] h = absurd (omega arith)
get_or-correct_pixels black white cs start i zero (v ∷ image) h =
    let e : i + 0 ≡ i = omega arith in rw e refl
get_or-correct_pixels black white cs start i (suc k) (v ∷ image) h =
    let e : i + suc k ≡ i + 1 + k = omega arith in
    rw e (get_or-correct_pixels black white cs start (i + 1) k image (omega arith))

pub length-correct_pixels :
    (black white : ℕ) (cs : List ℕ) (start i : ℕ) (image : List ℕ)
    → length (correct_pixels black white cs start i image) ≡ length image
unfolding correct_pixels
length-correct_pixels black white cs start i [] = refl
length-correct_pixels black white cs start i (v ∷ image) =
    ap suc (length-correct_pixels black white cs start (i + 1) image)

eights : (y w x : ℕ) → (y * (8 * w) + x) % 8 ≡ x % 8
eights zero w x = let e : 0 * (8 * w) ≡ 0 = omega arith in rw e (omega arith)
eights (suc y) w x =
    let e : suc y * (8 * w) ≡ y * (8 * w) + 8 * w = ground arith in omega (arith, e, eights y w x)

-- In a frame whose width is a multiple of 8, a correction that is needed changes the pixel of line
-- `y` and column `x` by the coefficient of `x % 8` alone, whatever the line. A pixel within 64 of
-- the black level, or with no coefficient, is kept. Any other becomes its distance from the black
-- level, times the coefficient in units of 1 / 65536, above the black level, or the white level if
-- that is less. The frame keeps its size.
pub stripes_apply_correction_lem :
    (black white w : ℕ) (c : StripesCorrection) (image : List ℕ)
    → black < 65536
    → white < 65536
    → c.correction_needed ≡ true
    → let corrected = stripes_apply_correction (8 * w) black white (some c) 0 image in
      (length corrected ≡ length image)
      × ((x y : ℕ)
          → x < 8 * w
          → y * (8 * w) + x < length image
          → let k = get_or c.coefficients (x % 8) 0 in
            let v = get_or image (y * (8 * w) + x) 0 in
            let v' = get_or corrected (y * (8 * w) + x) 0 in
            (k ≡ 0 → v' ≡ v)
            × (v ≤ black + 64 → v' ≡ v)
            × (0 < k → black + 64 < v → v' ≡ min white ((v - black) * k / fixp_one + black)))
unfolding stripes_apply_correction
stripes_apply_correction_lem black white w c image hb hw needed =
    let eight : (8 * w) % 8 ≡ 0 = omega arith in
    let b : black % 65536 ≡ black = omega arith in
    let t : white % 65536 ≡ white = omega arith in
    rw (needed, eight, b, t)
      (
        length-correct_pixels black white c.coefficients 0 0 image,
        λ x y hx inside.
            let i = y * (8 * w) + x in
            let k = get_or c.coefficients (x % 8) 0 in
            let v = get_or image i 0 in
            let e : (0 + i + 0) % 8 ≡ x % 8 = omega (arith, eights y w x) in
            let is : get_or (correct_pixels black white c.coefficients 0 0 image) i 0
                ≡ correct_pixel black white k v =
              get_or-correct_pixels black white c.coefficients 0 0 i image inside
              ∙ ap (λ (n : ℕ). correct_pixel black white (get_or c.coefficients n 0) v) e in
            (
              λ h. is ∙ unfold correct_pixel in ground (arith, h),
              λ h. is ∙ unfold correct_pixel in ground (arith, h),
              λ pos far. is ∙ unfold correct_pixel in ground (arith, pos, far),
            ),
      )
