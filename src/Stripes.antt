-- ===== src/Stripes.antt =====
-- The correction of vertical stripes of mlvfs/stripes.c: the list of corrections, and how one is
-- applied. Memory is at hand.
pub mod Columns
mod Tests
use mlvfs.Base.{
  ℕ, zero, suc, ◌+◌, ◌-◌, ◌*◌, ◌/◌, ◌%◌, min, Bool, true, false, not, ◌&&◌, ◌||◌, Option, none,
  some, List, [], ◌∷◌, ◌++◌, get_or, ltb, ◌==◌, if◌then◌else◌, Bytes, bytes_eq,
}

-- `struct stripes_correction`. The `next` pointers are the order of the list.
pub record StripesCorrection : Type 0 where
  pub mlv_filename : Bytes
  pub correction_needed : Bool
  pub coefficients : List ℕ

abbrev pub fixp_one : ℕ
fixp_one = 65536

unfoldable pub stripes_get_correction : Bytes → List StripesCorrection → Option StripesCorrection
stripes_get_correction mlv_filename [] = none
stripes_get_correction mlv_filename (current ∷ rest) =
    let found = stripes_get_correction mlv_filename rest in
    if bytes_eq current.mlv_filename mlv_filename then some current else found

-- At the end of the list. What the allocator leaves in the coefficients is `stack`.
unfoldable pub stripes_new_correction :
    List ℕ → Bytes → List StripesCorrection → StripesCorrection × List StripesCorrection
stripes_new_correction stack mlv_filename corrections =
    let new_correction : StripesCorrection = record {
      mlv_filename = mlv_filename;
      correction_needed = false;
      coefficients = stack;
    } in
    (new_correction, corrections ++ new_correction ∷ [])

-- What is written through a correction's pointer: the first of its name.
unfoldable pub set_correction :
    Bytes → StripesCorrection → List StripesCorrection → List StripesCorrection
set_correction mlv_filename c [] = []
set_correction mlv_filename c (current ∷ rest) =
    let others = set_correction mlv_filename c rest in
    if bytes_eq current.mlv_filename mlv_filename then c ∷ rest else current ∷ others

-- `c < 0.998 || c > 1.002` for the quotient `c / 65536`.
unfoldable pub is_noticeable : ℕ → Bool
is_noticeable c = ltb (1000 * c) (998 * fixp_one) || ltb (1002 * fixp_one) (1000 * c)

unfoldable pub any_noticeable : List ℕ → Bool
any_noticeable [] = false
any_noticeable (c ∷ cs) = is_noticeable c || any_noticeable cs

-- The end of `stripes_compute_correction`, once the medians are found: the first two columns are
-- what the others are compared with.
unfoldable pub finish_correction : List ℕ → StripesCorrection → StripesCorrection
finish_correction (a ∷ b ∷ medians) c = record c {
  correction_needed = any_noticeable (fixp_one ∷ fixp_one ∷ medians);
  coefficients = fixp_one ∷ fixp_one ∷ medians;
}
finish_correction short c = c

-- The loop over one histogram from bin `k`, with `t` samples below it, for `num` samples: the bin
-- at which half of them are reached.
unfoldable pub median_bin : ℕ → ℕ → ℕ → List ℕ → Option ℕ
median_bin num t k [] = none
median_bin num t k (b ∷ bins) =
    let rest = median_bin num (t + b) (k + 1) bins in
    if not (ltb (t + b) (num / 2)) then some k else rest

-- The coefficient of one column: with too few samples, or none, it stays as it was. The factor of
-- a bin is computed on floating-point numbers.
unfoldable pub median_coefficient : (ℕ → ℕ) → ℕ → ℕ → List ℕ → ℕ → ℕ
median_coefficient factor frame_size num bins old =
    let found : ℕ = elim (median_bin num 0 0 bins) [ none ↦ old | some k ↦ factor k ] in
    if ltb num (frame_size / 128) then old else found

-- One pixel. The product is below 2 ^ 53, and a quotient by 65536 is exact.
unfoldable pub correct_pixel : ℕ → ℕ → ℕ → ℕ → ℕ
correct_pixel black white coefficient v =
    if not (coefficient == 0) && ltb (black + 64) v
    then min white ((v - black) * coefficient / fixp_one + black)
    else v

-- The loop from pixel `i`, with the coefficient of column `(i + start) % 8`.
unfoldable pub correct_pixels : ℕ → ℕ → List ℕ → ℕ → ℕ → List ℕ → List ℕ
correct_pixels black white coefficients start i [] = []
correct_pixels black white coefficients start i (v ∷ image) =
    correct_pixel black white (get_or coefficients ((i + start) % 8) 0) v
    ∷ correct_pixels black white coefficients start (i + 1) image

-- The pixels of a frame of `x_res` columns, with its black and white levels, from an offset on.
unfoldable pub stripes_apply_correction : ℕ → ℕ → ℕ → Option StripesCorrection → ℕ → List ℕ → List ℕ
stripes_apply_correction x_res black white none offset image = image
stripes_apply_correction x_res black white (some c) offset image =
    let corrected =
      correct_pixels (black % 65536) (white % 65536) c.coefficients (offset % 8) 0 image in
    if not c.correction_needed || not (x_res % 8 == 0) then image else corrected
