-- ===== src/Unpack/Image.antt =====
-- What `get_image_data` of mlvfs/main.c makes of the words of a frame in a file.
use mlvfs.Base.{
  ℕ, zero, suc, ◌+◌, ◌-◌, ◌*◌, ◌/◌, ◌%◌, ◌≤◌, ◌<◌, ◌≡◌, refl, ap, ap₂, subst, sym, ◌∙◌, ◌⊎◌, inl,
  inr, List, [], ◌∷◌, append-nil, get_or, length, take, drop, arith, Bytes, All, le_value, slice,
  slice-slice, length-slice, write_at,
}
use mlvfs.Unpack.{
  StoredFrame, unpack_pixel, unpack_pixels, words_of, bytes_of, read_packed, packed_size,
  dng_get_image_data, get_image_data,
}
use mlvfs.Unpack.Pixel.{digit, fetch_pixel_lem}

-- The word at a place of the file.
abbrev pub word_at : Bytes → ℕ → ℕ
word_at file position = le_value (slice file position 2)

-- Pixel `i` of a frame whose data starts at `start`.
unfoldable pub frame_pixel : ℕ → Bytes → ℕ → ℕ → ℕ
frame_pixel bpp file start i =
    digit bpp (i * bpp % 16) (word_at file (start + 2 * (i * bpp / 16)))
      (word_at file (start + 2 * (i * bpp / 16 + 1)))

-- `n` pixels from the `i`-th on.
unfoldable pub frame_pixels : ℕ → Bytes → ℕ → ℕ → ℕ → List ℕ
frame_pixels bpp file start i zero = []
frame_pixels bpp file start i (suc n) =
    frame_pixel bpp file start i ∷ frame_pixels bpp file start (i + 1) n

slice_empty : (i n : ℕ) → slice [] i n ≡ []
unfolding slice
slice_empty zero zero = refl
slice_empty zero (suc n) = refl
slice_empty (suc i) zero = refl
slice_empty (suc i) (suc n) = refl

slice-drop : (bs : Bytes) (a i n : ℕ) → slice (drop a bs) i n ≡ slice bs (a + i) n
unfolding slice
slice-drop bs zero i n = let e : 0 + i ≡ i = omega arith in rw e refl
slice-drop [] (suc a) i n = slice_empty i n ∙ sym (slice_empty (suc a + i) n)
slice-drop (b ∷ bs) (suc a) i n =
    let e : suc a + i ≡ suc (a + i) = omega arith in rw e (slice-drop bs a i n)

get_or-words_of :
    (n k : ℕ) (bs : Bytes) → k < n → get_or (words_of n bs) k 0 ≡ le_value (slice bs (2 * k) 2)
unfolding words_of
get_or-words_of zero k bs h = absurd (omega arith)
get_or-words_of (suc n) zero bs h = refl
get_or-words_of (suc n) (suc k) bs h =
    let e : 2 * suc k ≡ 2 + 2 * k = omega arith in
    rw e (get_or-words_of n k (drop 2 bs) (omega arith) ∙ ap le_value (slice-drop bs 2 (2 * k) 2))

-- A word of the buffer is one of the file.
get_or-read_packed :
    (file : Bytes) (position n k : ℕ)
    → position + n * 2 ≤ length file
    → k < n
    → get_or (read_packed file position n) k 0 ≡ word_at file (position + 2 * k)
unfolding read_packed
get_or-read_packed file position n k whole h =
    let got = slice file position (n * 2) in
    let long : length got ≡ n * 2 = length-slice file position (n * 2) whole in
    let none_left : n * 2 - length got ≡ 0 = omega (arith, long) in
    rw (none_left, append-nil got)
      (get_or-words_of n k got h
        ∙ ap le_value (slice-slice file position (n * 2) (2 * k) 2 (omega arith)))

abbrev pub IsBytes : Bytes → Type 0
IsBytes = All (λ (b : ℕ). b < 256)

drop-IsBytes : (k : ℕ) (bs : Bytes) → IsBytes bs → IsBytes (drop k bs)
drop-IsBytes zero bs h = h
drop-IsBytes (suc k) [] h = tt
drop-IsBytes (suc k) (b ∷ bs) h = drop-IsBytes k bs h.1

le_value-take : (bs : Bytes) → IsBytes bs → le_value (take 2 bs) < 65536
unfolding le_value
le_value-take [] h = omega arith
le_value-take (a ∷ []) h = omega (arith, h.0)
le_value-take (a ∷ b ∷ bs) h = omega (arith, h.0, (h.1).0)

word_at-lt : (file : Bytes) (position : ℕ) → IsBytes file → word_at file position < 65536
unfolding slice
word_at-lt file position h = le_value-take (drop position file) (drop-IsBytes position file h)

abbrev IsDepth : ℕ → Type 0
IsDepth bpp = ((bpp ≡ 8) ⊎ (bpp ≡ 10)) ⊎ ((bpp ≡ 12) ⊎ (bpp ≡ 14))

unpack_pixel-frame :
    (bpp : ℕ) (file : Bytes) (start address n i : ℕ)
    → IsDepth bpp
    → IsBytes file
    → start + 2 * address + n * 2 ≤ length file
    → i * bpp < 4294967296
    → address ≤ i * bpp / 16
    → i * bpp / 16 + 1 < address + n
    → unpack_pixel bpp address (read_packed file (start + 2 * address) n) i
      ≡ frame_pixel bpp file start i
unfolding unpack_pixel frame_pixel
unpack_pixel-frame bpp file start address n i depth bytes whole small behind inside =
    let bits = i * bpp in
    let a = bits / 16 in
    let fits : bits % 4294967296 ≡ bits = omega arith in
    let first : start + 2 * address + 2 * (a - address) ≡ start + 2 * a = omega arith in
    let second : start + 2 * address + 2 * (a - address + 1) ≡ start + 2 * (a + 1) = omega arith in
    let low = get_or-read_packed file (start + 2 * address) n (a - address) whole (omega arith) in
    let high =
      get_or-read_packed file (start + 2 * address) n (a - address + 1) whole (omega arith) in
    rw (fits, low, high, first, second)
      (fetch_pixel_lem bpp (bits % 16) (word_at file (start + 2 * a))
        (word_at file (start + 2 * (a + 1))) depth (omega arith)
        (word_at-lt file (start + 2 * a) bytes) (word_at-lt file (start + 2 * (a + 1)) bytes))

-- The address of a pixel is in the buffer, and so is the word behind it.
abbrev InBuffer : ℕ → ℕ → ℕ → ℕ → Type 0
InBuffer bpp address n i =
    (i * bpp < 4294967296) × (address ≤ i * bpp / 16) × (i * bpp / 16 + 1 < address + n)

unpack_pixels-frame :
    (bpp : ℕ) (file : Bytes) (start address n i m : ℕ)
    → IsDepth bpp
    → IsBytes file
    → start + 2 * address + n * 2 ≤ length file
    → ((j : ℕ) → i ≤ j → j < i + m → InBuffer bpp address n j)
    → unpack_pixels bpp address (read_packed file (start + 2 * address) n) i m
      ≡ frame_pixels bpp file start i m
unfolding unpack_pixels frame_pixels
unpack_pixels-frame bpp file start address n i zero depth bytes whole inside = refl
unpack_pixels-frame bpp file start address n i (suc m) depth bytes whole inside =
    let (small, behind, within) = inside i (omega arith) (omega arith) in
    ap₂ (λ (w : ℕ) (ws : List ℕ). w ∷ ws)
      (unpack_pixel-frame bpp file start address n i depth bytes whole small behind within)
      (unpack_pixels-frame bpp file start address n (i + 1) m depth bytes whole
        (λ j le lt. inside j (omega arith) (omega arith)))

-- Two words more than the pixels need are enough.
abbrev Enough : ℕ → Type 0
Enough bpp =
    (p m : ℕ)
    → (p + m) * bpp < 4294967296
    → p * bpp % 16 + 32 ≤ 3 * bpp
    → (j : ℕ) → p ≤ j
    → j < p + m
    → InBuffer bpp (p * bpp / 16) ((m + 2) * bpp / 16) j

twelve-Enough : Enough 12
twelve-Enough p m small early j le lt = (omega arith, omega arith, omega arith)

fourteen-Enough : Enough 14
fourteen-Enough p m small early j le lt = (omega arith, omega arith, omega arith)

depth-Enough : (bpp : ℕ) → (bpp ≡ 12) ⊎ (bpp ≡ 14) → Enough bpp
depth-Enough bpp (inl e) = subst Enough (sym e) twelve-Enough
depth-Enough bpp (inr e) = subst Enough (sym e) fourteen-Enough

-- The sizes do not overflow.
abbrev NoOverflow : ℕ → Type 0
NoOverflow bpp =
    (p m : ℕ) → (p + m) * bpp < 4294967296 → (2 * p < 4294967296) × (p * bpp < 4294967296)

depth-NoOverflow : (bpp : ℕ) → (bpp ≡ 12) ⊎ (bpp ≡ 14) → NoOverflow bpp
depth-NoOverflow bpp (inl e) = subst NoOverflow (sym e) (λ p m h. (omega arith, omega arith))
depth-NoOverflow bpp (inr e) = subst NoOverflow (sym e) (λ p m h. (omega arith, omega arith))

-- With 12 or 14 bits per pixel, a read of `m` pixels from the `p`-th on, of a frame that is not
-- compressed, in a file of bytes that holds all the words that the call reads, returns the size
-- of these pixels and puts them at the start of the buffer. Pixel `i` has the bits from `i *
-- bpp` on, counted in the 16-bit words of the frame from the top of each word, whatever pixel
-- the read starts from. The bits up to the last pixel are counted in 32 bits, and the first
-- pixel starts early enough in its word, which it does at the start of a frame.
pub get_image_data_lem :
    (f : StoredFrame) (file output_buffer : Bytes) (p m : ℕ)
    → (f.bits_per_pixel ≡ 12) ⊎ (f.bits_per_pixel ≡ 14)
    → IsBytes file
    → f.position
        + f.frame_space
        + 32
        + 2 * (p * f.bits_per_pixel / 16)
        + packed_size f.bits_per_pixel (2 * m) * 2
      ≤ length file
    → (p + m) * f.bits_per_pixel < 4294967296
    → p * f.bits_per_pixel % 16 + 32 ≤ 3 * f.bits_per_pixel
    → get_image_data f file output_buffer (2 * p) (2 * m) ≡ (
      2 * m,
      write_at output_buffer 0
          (bytes_of (frame_pixels f.bits_per_pixel file (f.position + f.frame_space + 32) p m)),
    )
unfolding get_image_data dng_get_image_data packed_size
get_image_data_lem f file output_buffer p m depth bytes whole small early =
    let bpp = f.bits_per_pixel in
    let start = f.position + f.frame_space + 32 in
    let address = p * bpp / 16 in
    let n = (m + 2) * bpp / 16 in
    let (fits, fit) = depth-NoOverflow bpp depth p m small in
    let half : 2 * p / 2 ≡ p = omega arith in
    let halves : 2 * m / 2 ≡ m = omega arith in
    let even : 2 * p % 2 ≡ 0 = omega arith in
    let index : 2 * p % 4294967296 ≡ 2 * p = omega arith in
    let bits : p * bpp % 4294967296 ≡ p * bpp = omega arith in
    let place : start + address * 2 ≡ start + 2 * address = omega arith in
    let size : start + 2 * address + n * 2 ≤ length file = rw halves at whole in
    rw (index, half, bits, even, halves, place)
      (ap (λ (ws : List ℕ). (2 * m, write_at output_buffer 0 (bytes_of ws)))
        (unpack_pixels-frame bpp file start address n p m (inr depth) bytes size
          (depth-Enough bpp depth p m small early)))
