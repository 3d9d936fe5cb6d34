-- ===== src/Stripes/Tests.antt =====
-- A correction of two lines of eight pixels.
use mlvfs.Base.{
  ℕ, ◌+◌, ◌-◌, ◌*◌, ◌/◌, ◌%◌, ◌≤◌, ◌<◌, ◌≡◌, refl, min, true, false, some, List, [], ◌∷◌, get_or,
  length, arith,
}
use mlvfs.Stripes.{
  StripesCorrection, fixp_one, correct_pixel, correct_pixels, stripes_apply_correction,
  is_noticeable,
}
use mlvfs.Stripes.Columns.{stripes_apply_correction_lem}

abbrev correction : StripesCorrection
correction = record {
  mlv_filename = [];
  correction_needed = true;
  coefficients = 65536 ∷ 65536 ∷ 131072 ∷ 0 ∷ 32768 ∷ 65536 ∷ 65536 ∷ 65536 ∷ [];
}

abbrev image : List ℕ
image =
    300 ∷ 300 ∷ 300 ∷ 300 ∷ 300 ∷ 150 ∷ 0 ∷ 0 ∷ 500 ∷ 500 ∷ 800 ∷ 500 ∷ 500 ∷ 500 ∷ 500 ∷ 500 ∷ []

stripes_apply_correction_lem_example :
    let corrected = stripes_apply_correction 8 100 1000 (some correction) 0 image in
    (length corrected ≡ 16)
    × ((x y : ℕ)
        → x < 8
        → y * 8 + x < 16
        → let k = get_or correction.coefficients (x % 8) 0 in
          let v = get_or image (y * 8 + x) 0 in
          let v' = get_or corrected (y * 8 + x) 0 in
          (k ≡ 0 → v' ≡ v)
          × (v ≤ 100 + 64 → v' ≡ v)
          × (0 < k → 100 + 64 < v → v' ≡ min 1000 ((v - 100) * k / fixp_one + 100)))
stripes_apply_correction_lem_example =
    stripes_apply_correction_lem 100 1000 1 correction image (omega arith) (omega arith) refl

-- The third column is doubled up to the white level, the fifth halved.
corrected_image :
    stripes_apply_correction 8 100 1000 (some correction) 0 image
    ≡ 300 ∷ 300 ∷ 500 ∷ 300 ∷ 200 ∷ 150 ∷ 0 ∷ 0 ∷ 500 ∷ 500 ∷ 1000 ∷ 500 ∷ 300 ∷ 500 ∷ 500 ∷ 500
      ∷ []
unfolding stripes_apply_correction correct_pixels correct_pixel
corrected_image = refl

-- 0.998 is not noticed, and less is.
noticed : (is_noticeable 65405 ≡ false) × (is_noticeable 65404 ≡ true)
unfolding is_noticeable
noticed = (refl, refl)
