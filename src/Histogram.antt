-- ===== src/Histogram.antt =====
-- The histogram of mlvfs/histogram.c, of which `deflicker` takes the median.
pub mod Median
mod Tests
use mlvfs.Base.{
  ℕ, zero, suc, ◌+◌, ◌/◌, ◌%◌, ◌^◌, min, List, [], ◌∷◌, length, replicate, ltb, if◌then◌else◌,
}

-- `struct histogram`: the last bin takes everything from `white` on.
pub record Histogram : Type 0 where
  pub white : ℕ
  pub count : ℕ
  pub bins : List ℕ

unfoldable pub hist_create : ℕ → Histogram
hist_create white = record { white = white; count = 0; bins = replicate (white + 1) 0 }

-- `data[i]++` on 16 bits.
unfoldable pub increment : ℕ → List ℕ → List ℕ
increment i [] = []
increment zero (b ∷ bs) = (b + 1) % 65536 ∷ bs
increment (suc i) (b ∷ bs) = b ∷ increment i bs

-- Every `skip + 1`st sample, after `wait` samples that are passed over.
unfoldable pub every : ℕ → ℕ → List ℕ → List ℕ
every skip wait [] = []
every skip zero (x ∷ xs) = x ∷ every skip skip xs
every skip (suc wait) (x ∷ xs) = every skip wait xs

unfoldable pub add_samples : ℕ → List ℕ → List ℕ → List ℕ
add_samples white [] bins = bins
add_samples white (x ∷ xs) bins = add_samples white xs (increment (min white x) bins)

-- `count` grows on 32 bits.
unfoldable pub hist_add : Histogram → List ℕ → ℕ → Histogram
hist_add h samples skip = record h {
  bins = add_samples h.white (every skip 0 samples) h.bins;
  count = (h.count + length samples / (skip + 1)) % 2 ^ 32;
}

-- The loop from bin `i`, with `current` samples below it.
unfoldable pub median_loop : ℕ → ℕ → ℕ → List ℕ → ℕ
median_loop middle current i [] = 0
median_loop middle current i (b ∷ bs) =
    let rest = median_loop middle (current + b) (i + 1) bs in
    if ltb middle (current + b) then i else rest

unfoldable pub hist_median : Histogram → ℕ
hist_median h = median_loop (h.count / 2) 0 0 h.bins
