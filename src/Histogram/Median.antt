-- ===== src/Histogram/Median.antt =====
-- The median of mlvfs/histogram.c against a count of the samples.
use mlvfs.Base.{
  ℕ, zero, suc, ◌+◌, ◌-◌, ◌*◌, ◌/◌, ◌%◌, ◌≤◌, ◌<◌, ◌^◌, min, ◌≡◌, refl, List, [], ◌∷◌, length,
  replicate, ltb, if◌then◌else◌, arith, Bool-cases, inl, inr, length-replicate,
}
use native.Mathlib.Nat.{div-le_of_le-mul}
use mlvfs.Histogram.{hist_create, increment, every, add_samples, hist_add, median_loop, hist_median}

-- How many samples, capped at `white`, are below `k`.
abbrev pub below : ℕ → ℕ → List ℕ → ℕ
below white k [] = 0
below white k (x ∷ xs) = (if ltb (min white x) k then 1 else 0) + below white k xs

-- What the first `k` bins hold.
unfoldable bins_below : ℕ → List ℕ → ℕ
bins_below zero bs = 0
bins_below (suc k) [] = 0
bins_below (suc k) (b ∷ bs) = b + bins_below k bs

length-increment : (i : ℕ) (bs : List ℕ) → length (increment i bs) ≡ length bs
unfolding increment
length-increment i [] = refl
length-increment zero (b ∷ bs) = refl
length-increment (suc i) (b ∷ bs) = ground (arith, length-increment i bs)

bins_below-increment :
    (k i : ℕ) (bs : List ℕ)
    → i < length bs
    → bins_below (length bs) bs < 65535
    → bins_below k (increment i bs) ≡ bins_below k bs + (if ltb i k then 1 else 0)
unfolding bins_below increment
bins_below-increment k i [] h s = absurd (omega arith)
bins_below-increment zero i (b ∷ bs) h s = ground arith
bins_below-increment (suc k) zero (b ∷ bs) h s = ground arith
bins_below-increment (suc k) (suc i) (b ∷ bs) h s =
    ground (arith, bins_below-increment k i bs (omega arith) (omega arith))

bins_below_mono : (k : ℕ) (bs : List ℕ) → bins_below k bs ≤ bins_below (length bs) bs
unfolding bins_below
bins_below_mono zero bs = omega arith
bins_below_mono (suc k) [] = omega arith
bins_below_mono (suc k) (b ∷ bs) = omega (arith, bins_below_mono k bs)

bins_below-add_samples :
    (white k : ℕ) (xs bins : List ℕ)
    → length bins ≡ white + 1
    → bins_below (white + 1) bins + length xs < 65536
    → (bins_below k (add_samples white xs bins) ≡ bins_below k bins + below white k xs)
      × (length (add_samples white xs bins) ≡ white + 1)
unfolding add_samples
bins_below-add_samples white k [] bins l s = (omega arith, l)
bins_below-add_samples white k (x ∷ xs) bins l s =
    let i = min white x in
    let s' : bins_below (length bins) bins < 65535 = rw l (omega arith) in
    let one = bins_below-increment k i bins (omega arith) s' in
    let all = bins_below-increment (white + 1) i bins (omega arith) s' in
    let r =
      bins_below-add_samples white k xs (increment i bins) (omega (arith, length-increment i bins))
        (ground (arith, all)) in
    (omega (arith, r.0, one), r.1)

bins_below-replicate : (k n : ℕ) → bins_below k (replicate n 0) ≡ 0
unfolding bins_below
bins_below-replicate zero n = refl
bins_below-replicate (suc k) zero = refl
bins_below-replicate (suc k) (suc n) = omega (arith, bins_below-replicate k n)

median_loop_lem :
    (middle current i : ℕ) (bs : List ℕ)
    → current ≤ middle
    → middle < current + bins_below (length bs) bs
    → (i ≤ median_loop middle current i bs)
      × (current + bins_below (median_loop middle current i bs - i) bs ≤ middle)
      × (middle < current + bins_below (median_loop middle current i bs + 1 - i) bs)
      × (median_loop middle current i bs < i + length bs)
unfolding median_loop bins_below
median_loop_lem middle current i [] l h = absurd (omega arith)
median_loop_lem middle current i (b ∷ bs) l h = elim (Bool-cases (ltb middle (current + b))) [
  | inl e ↦
      let below : i - i ≡ 0 = omega arith in
      let here : i + 1 - i ≡ suc 0 = omega arith in
      rw e (omega arith, rw below (omega arith), rw here (ground arith), omega arith)
  | inr e ↦
      let r = median_loop_lem middle (current + b) (i + 1) bs (ground arith) (omega arith) in
      let m = median_loop middle (current + b) (i + 1) bs in
      let below : m - i ≡ suc (m - (i + 1)) = omega arith in
      let here : m + 1 - i ≡ suc (m + 1 - (i + 1)) = omega arith in
      rw e (omega arith, rw below (omega arith), rw here (omega arith), omega arith)
]

length-every :
    (skip wait : ℕ) (xs : List ℕ) → length xs ≤ length (every skip wait xs) * (skip + 1) + wait
unfolding every
length-every skip wait [] = omega arith
length-every skip zero (x ∷ xs) = omega (arith, length-every skip skip xs)
length-every skip (suc wait) (x ∷ xs) = omega (arith, length-every skip wait xs)

length-every_pos : (skip : ℕ) (xs : List ℕ) → 0 < length xs → 0 < length (every skip 0 xs)
unfolding every
length-every_pos skip [] h = absurd (omega arith)
length-every_pos skip (x ∷ xs) h = omega arith

below_all : (white : ℕ) (xs : List ℕ) → below white (white + 1) xs ≡ length xs
below_all white [] = refl
below_all white (x ∷ xs) = ground (arith, below_all white xs)

-- Where fewer than 65536 samples are taken, of fewer than 2 ^ 32 values, the median is at most
-- `white`. Divide the number of values by `skip + 1` and then by 2, rounding down each time: at most
-- so many of the samples, capped at `white`, lie below the median, and more than so many are at most
-- the median.
pub hist_median_lem :
    (white skip : ℕ) (samples : List ℕ)
    → 0 < length samples
    → length samples < 2 ^ 32
    → length (every skip 0 samples) < 65536
    → (below white (hist_median (hist_add (hist_create white) samples skip)) (every skip 0 samples)
        ≤ length samples / (skip + 1) / 2)
      × (length samples / (skip + 1) / 2
          < below white
              (hist_median (hist_add (hist_create white) samples skip) + 1)
              (every skip 0 samples))
      × (hist_median (hist_add (hist_create white) samples skip) ≤ white)
unfolding hist_median hist_add hist_create
hist_median_lem white skip samples o fits few =
    let taken = every skip 0 samples in
    let q : length samples / (skip + 1) ≤ length taken =
      div-le_of_le-mul (skip + 1) (omega (arith, length-every skip 0 samples)) in
    let count : (0 + length samples / (skip + 1)) % 2 ^ 32 ≡ length samples / (skip + 1) =
      omega (arith, q) in
    let bins : List ℕ = replicate (white + 1) 0 in
    let start : bins_below (white + 1) bins + length taken < 65536 =
      omega (arith, bins_below-replicate (white + 1) (white + 1)) in
    let bs = add_samples white taken bins in
    let at : (k : ℕ) → bins_below k bs ≡ below white k taken = λ k. omega (
      arith,
      (bins_below-add_samples white k taken bins (length-replicate (white + 1) 0) start).0,
      bins_below-replicate k (white + 1),
    ) in
    let len =
      (bins_below-add_samples white 0 taken bins (length-replicate (white + 1) 0) start).1 in
    let middle = length samples / (skip + 1) / 2 in
    let half : middle < 0 + bins_below (length bs) bs =
      rw len (
        omega (arith, q, at (white + 1), below_all white taken, length-every_pos skip samples o)) in
    let r = median_loop_lem middle 0 0 bs (omega arith) half in
    let m = median_loop middle 0 0 bs in
    let first : m - 0 ≡ m = omega arith in
    let next : m + 1 - 0 ≡ m + 1 = omega arith in
    let low : 0 + bins_below m bs ≤ middle = rw first at r.1 in
    let high : middle < 0 + bins_below (m + 1) bs = rw next at r.2 in
    rw count (omega (arith, at m), omega (arith, at (m + 1)), omega (arith, r.3))
