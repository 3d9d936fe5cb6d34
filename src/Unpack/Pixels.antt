-- ===== src/Unpack/Pixels.antt =====
-- The buffer after the loops that untile a frame.
use mlvfs.Base.{
  ℕ, zero, suc, ◌+◌, ◌*◌, ◌≤◌, ◌<◌, ◌≡◌, ◌≢◌, ◌⊎◌, inl, inr, refl, sym, ap, ◌∙◌, length, arith,
  Bytes, le_value, le_bytes, length-le_bytes, le_value-le_bytes, slice, write_at, length-write_at,
  slice-write_at_self, slice-write_at_before, slice-write_at_after,
}
use mlvfs.Unpack.Compressed.{untile_index, put_pixel, untile_line}
use mlvfs.Unpack.Untile.{tile_index, tile_index-untile_index}

-- The word `k` of a buffer.
abbrev pub pixel_at : Bytes → ℕ → ℕ
pixel_at buf k = le_value (slice buf (2 * k) 2)

length-put_pixel :
    (buf : Bytes) (k v : ℕ) → 2 * k + 2 ≤ length buf → length (put_pixel buf k v) ≡ length buf
unfolding put_pixel
length-put_pixel buf k v h =
    length-write_at buf (2 * k) (le_bytes 2 v) (omega (arith, length-le_bytes 2 v))

pixel_at-put_pixel :
    (buf : Bytes) (k v : ℕ)
    → 2 * k + 2 ≤ length buf
    → v < 65536
    → pixel_at (put_pixel buf k v) k ≡ v
unfolding put_pixel
pixel_at-put_pixel buf k v h small =
    let e : 2 * k + 0 ≡ 2 * k = omega arith in
    let l = length-le_bytes 2 v in
    let stored : slice (write_at buf (2 * k) (le_bytes 2 v)) (2 * k + 0) 2
        ≡ slice (le_bytes 2 v) 0 2 =
      slice-write_at_self buf (2 * k) (le_bytes 2 v) 0 2 (omega arith) (omega (arith, l)) in
    ap (λ (p : ℕ). le_value (slice (write_at buf (2 * k) (le_bytes 2 v)) p 2)) (sym e)
    ∙ ap le_value stored
    ∙ unfold slice le_bytes in le_value-le_bytes 2 v (omega (arith, small))

pub order_cases : (a b : ℕ) → a ≢ b → (a + 1 ≤ b) ⊎ (b + 1 ≤ a)
order_cases a b h = ground arith

pixel_at-put_pixel_other :
    (buf : Bytes) (k v j : ℕ)
    → 2 * k + 2 ≤ length buf
    → k ≢ j
    → pixel_at (put_pixel buf k v) j ≡ pixel_at buf j
unfolding put_pixel
pixel_at-put_pixel_other buf k v j h other = elim (order_cases k j other) [
  | inl after ↦ ap le_value (
      slice-write_at_after buf (2 * k) (le_bytes 2 v) (2 * j) 2 (omega arith)
        (omega (arith, length-le_bytes 2 v)))
  | inr before ↦
      ap le_value
        (slice-write_at_before buf (2 * k) (le_bytes 2 v) (2 * j) 2 (omega arith) (omega arith))
]

pub first_cases : (x t : ℕ) → x ≤ t → (x ≡ t) ⊎ (x + 1 ≤ t)
first_cases x t h = ground arith

-- A source of 16-bit words, and a picture of `2 * m` columns.
module _ (m : ℕ) (src : ℕ → ℕ) (small : (i : ℕ) → src i < 65536) where
  in_line : (i : ℕ) → i < 2 * m → untile_index (2 * m) i < 2 * m
  in_line i h = (tile_index-untile_index m i h).0

  pub length-untile_line :
      (src_start start x n : ℕ) (buf : Bytes)
      → 2 * (start + 2 * m) ≤ length buf
      → x + n ≤ 2 * m
      → length (untile_line (2 * m) src src_start start x n buf) ≡ length buf
  unfolding untile_line
  length-untile_line src_start start x zero buf room inside = refl
  length-untile_line src_start start x (suc n) buf room inside =
      let l =
        length-put_pixel buf (start + untile_index (2 * m) x) (src (src_start + x))
          (omega (arith, in_line x (omega arith))) in
      length-untile_line src_start start (x + 1) n _ (omega (arith, l)) (omega arith) ∙ l

  -- Pixels that no column goes to.
  pub untile_line-other :
      (src_start start x n k : ℕ) (buf : Bytes)
      → 2 * (start + 2 * m) ≤ length buf
      → x + n ≤ 2 * m
      → ((i : ℕ) → x ≤ i → i < x + n → start + untile_index (2 * m) i ≢ k)
      → pixel_at (untile_line (2 * m) src src_start start x n buf) k ≡ pixel_at buf k
  unfolding untile_line
  untile_line-other src_start start x zero k buf room inside other = refl
  untile_line-other src_start start x (suc n) k buf room inside other =
      let v = src (src_start + x) in
      let at = start + untile_index (2 * m) x in
      let fits : 2 * at + 2 ≤ length buf = omega (arith, in_line x (omega arith)) in
      let l = length-put_pixel buf at v fits in
      untile_line-other src_start start (x + 1) n k _ (omega (arith, l)) (omega arith)
        (λ i lo hi. other i (omega arith) (omega arith))
      ∙ pixel_at-put_pixel_other buf at v k fits (other x (omega arith) (omega arith))

  -- Two columns do not go to the same place.
  pub apart :
      (start x i : ℕ)
      → x < 2 * m
      → i < 2 * m
      → x < i
      → start + untile_index (2 * m) i ≢ start + untile_index (2 * m) x
  apart start x i hx hi less same =
      let back : untile_index (2 * m) i ≡ untile_index (2 * m) x = omega arith in
      let equal : i ≡ x =
        sym (tile_index-untile_index m i hi).1
        ∙ ap (tile_index m) back
        ∙ (tile_index-untile_index m x hx).1 in
      omega (arith, equal)

  -- The pixel that column `t` goes to.
  pub untile_line-at :
      (src_start start x n t : ℕ) (buf : Bytes)
      → 2 * (start + 2 * m) ≤ length buf
      → x + n ≤ 2 * m
      → x ≤ t
      → t < x + n
      → pixel_at (untile_line (2 * m) src src_start start x n buf) (start + untile_index (2 * m) t)
        ≡ src (src_start + t)
  unfolding untile_line
  untile_line-at src_start start x zero t buf room inside lo hi = absurd (omega arith)
  untile_line-at src_start start x (suc n) t buf room inside lo hi =
      let v = src (src_start + x) in
      let at = start + untile_index (2 * m) x in
      let fits : 2 * at + 2 ≤ length buf = omega (arith, in_line x (omega arith)) in
      let l = length-put_pixel buf at v fits in
      elim (first_cases x t lo) [
        | inl e ↦
            let same : start + untile_index (2 * m) t ≡ at =
              ap (λ (i : ℕ). start + untile_index (2 * m) i) (sym e) in
            let value : v ≡ src (src_start + t) = ap (λ (i : ℕ). src (src_start + i)) e in
            rw same (
              untile_line-other src_start start (x + 1) n at (put_pixel buf at v) (omega (arith, l))
                (omega arith)
                (λ i low high. apart start x i (omega arith) (omega arith) (omega arith))
              ∙ pixel_at-put_pixel buf at v fits (small (src_start + x))
              ∙ value)
        | inr later ↦
            untile_line-at src_start start (x + 1) n t (put_pixel buf at v) (omega (arith, l))
              (omega arith) (omega arith) (omega arith)
      ]
