-- ===== src/Unpack/Frames.antt =====
-- A frame of lossless JPEG after `get_image_data` of mlvfs/main.c.
mod Tests
use native.Mathlib.Nat.{add-mul}
use mlvfs.Base.{
  ℕ, zero, suc, ◌+◌, ◌-◌, ◌*◌, ◌/◌, ◌%◌, ◌≤◌, ◌<◌, ◌≡◌, ◌≢◌, ◌⊎◌, inl, inr, refl, sym, ap, ap₂, ◌∙◌,
  none, Option, length, drop, arith, Bytes, ◌==◌, ◌||◌, le_value, slice,
}
use mlvfs.Headers.{FrameHeaders, sizeof_mlv_vidf_hdr}
use mlvfs.Unpack.Compressed.{
  video_class, stored_frame, untile_index, untile_line, untile_lines, read_stored_frame,
}
use mlvfs.Unpack.Untile.{tile_index, untile_index-tile_index, tile_index-untile_index}
use mlvfs.Unpack.Pixels.{
  pixel_at, length-untile_line, untile_line-other, untile_line-at, first_cases, order_cases,
}

-- A line ends before the next one starts.
line_end : (a b w : ℕ) → a + 1 ≤ b → a * w + w ≤ b * w
line_end a b w h =
    let d = b - (a + 1) in
    let e : b ≡ (a + 1) + d = omega arith in
    let one : (a + 1) * w ≡ a * w + 1 * w = add-mul a 1 w in
    let s : ((a + 1) + d) * w ≡ (a + 1) * w + d * w = add-mul (a + 1) d w in
    let b_w : b * w ≡ ((a + 1) + d) * w = ap (λ (k : ℕ). k * w) e in omega (arith, one, s, b_w)

lines_apart : (a b w x y : ℕ) → a ≢ b → x < w → y < w → a * w + x ≢ b * w + y
lines_apart a b w x y other hx hy same = elim (order_cases a b other) [
  | inl less ↦ omega (arith, line_end a b w less)
  | inr more ↦ omega (arith, line_end b a w more)
]

-- A picture of `2 * m` columns and `2 * p` lines.
module _ (m p : ℕ) (src : ℕ → ℕ) (small : (i : ℕ) → src i < 65536) where
  line_fits :
      (buf : Bytes) (y : ℕ)
      → 2 * (2 * p * (2 * m)) ≤ length buf
      → y < 2 * p
      → 2 * (untile_index (2 * p) y * (2 * m) + 2 * m) ≤ length buf
  line_fits buf y room inside = omega (
    arith,
    line_end (untile_index (2 * p) y) (2 * p) (2 * m)
        (omega (arith, (tile_index-untile_index p y inside).0)),
  )

  lines_other :
      (y n row x : ℕ) (buf : Bytes)
      → 2 * (2 * p * (2 * m)) ≤ length buf
      → y + n ≤ 2 * p
      → x < 2 * m
      → ((i : ℕ) → y ≤ i → i < y + n → untile_index (2 * p) i ≢ row)
      → pixel_at (untile_lines (2 * m) (2 * p) src y n buf) (row * (2 * m) + x)
        ≡ pixel_at buf (row * (2 * m) + x)
  unfolding untile_lines
  lines_other y zero row x buf room inside hx other = refl
  lines_other y (suc n) row x buf room inside hx other =
      let start = untile_index (2 * p) y * (2 * m) in
      let fits = line_fits buf y room (omega arith) in
      let l = length-untile_line m src small (y * (2 * m)) start 0 (2 * m) buf fits (omega arith) in
      lines_other (y + 1) n row x _ (omega (arith, l)) (omega arith) hx
        (λ i lo hi. other i (omega arith) (omega arith))
      ∙ untile_line-other m src small (y * (2 * m)) start 0 (2 * m) (row * (2 * m) + x) buf fits
          (omega arith)
          (λ i lo hi.
            lines_apart (untile_index (2 * p) y) row (2 * m) (untile_index (2 * m) i) x
              (other y (omega arith) (omega arith)) (tile_index-untile_index m i (omega arith)).0
              hx)

  lines_at :
      (y n t u : ℕ) (buf : Bytes)
      → 2 * (2 * p * (2 * m)) ≤ length buf
      → y + n ≤ 2 * p
      → y ≤ t
      → t < y + n
      → u < 2 * m
      → pixel_at
          (untile_lines (2 * m) (2 * p) src y n buf)
          (untile_index (2 * p) t * (2 * m) + untile_index (2 * m) u)
        ≡ src (t * (2 * m) + u)
  unfolding untile_lines
  lines_at y zero t u buf room inside lo hi hu = absurd (omega arith)
  lines_at y (suc n) t u buf room inside lo hi hu =
      let start = untile_index (2 * p) y * (2 * m) in
      let fits = line_fits buf y room (omega arith) in
      let l = length-untile_line m src small (y * (2 * m)) start 0 (2 * m) buf fits (omega arith) in
      let written = untile_line (2 * m) src (y * (2 * m)) start 0 (2 * m) buf in
      elim (first_cases y t lo) [
        | inl e ↦ rw (← e) (
            lines_other (y + 1) n (untile_index (2 * p) y) (untile_index (2 * m) u) written
              (omega (arith, l)) (omega arith) (tile_index-untile_index m u hu).0
              (λ i low high same.
                let equal : i ≡ y =
                  sym (tile_index-untile_index p i (omega arith)).1
                  ∙ ap (tile_index p) same
                  ∙ (tile_index-untile_index p y (omega arith)).1 in
                omega (arith, equal))
            ∙ untile_line-at m src small (y * (2 * m)) start 0 (2 * m) u buf fits (omega arith)
                (omega arith) (omega arith))
        | inr later ↦
            lines_at (y + 1) n t u written (omega (arith, l)) (omega arith) (omega arith)
              (omega arith) hu
      ]

  pub untile_lines_lem :
      (x y : ℕ) (buf : Bytes)
      → 2 * (2 * p * (2 * m)) ≤ length buf
      → x < 2 * m
      → y < 2 * p
      → pixel_at (untile_lines (2 * m) (2 * p) src 0 (2 * p) buf) (y * (2 * m) + x)
        ≡ src (tile_index p y * (2 * m) + tile_index m x)
  untile_lines_lem x y buf room hx hy =
      let (ty, ey) = untile_index-tile_index p y hy in
      let (tx, ex) = untile_index-tile_index m x hx in
      let place : y * (2 * m) + x
          ≡ untile_index (2 * p) (tile_index p y) * (2 * m)
            + untile_index (2 * m) (tile_index m x) =
        ap₂ (λ (a b : ℕ). a * (2 * m) + b) (sym ey) (sym ex) in
      ap (pixel_at (untile_lines (2 * m) (2 * p) src 0 (2 * p) buf)) place
      ∙ lines_at 0 (2 * p) (tile_index p y) (tile_index m x) buf room (omega arith) (omega arith)
          (omega arith) tx

-- The data that lj92 decodes.
abbrev pub lj92_stream : FrameHeaders → Bytes → Bytes
lj92_stream h file =
    let headers_size = (stored_frame h).frame_space + sizeof_mlv_vidf_hdr in
    drop 4 (read_stored_frame h file (le_value (slice h.vidf_hdr 4 4) - headers_size))
