-- ===== src/Histogram/Tests.antt =====
-- The histogram of mlvfs/histogram.c on small inputs.
use mlvfs.Base.{ℕ, ◌+◌, ◌/◌, ◌≤◌, ◌<◌, ◌≡◌, refl, List, [], ◌∷◌, length, arith}
use mlvfs.Histogram.{hist_create, increment, every, add_samples, hist_add, median_loop, hist_median}
use mlvfs.Histogram.Median.{below, hist_median_lem}

abbrev samples : List ℕ
samples = 5 ∷ 99 ∷ 1 ∷ 99 ∷ 4 ∷ 99 ∷ 12 ∷ 99 ∷ 3 ∷ 99 ∷ []

-- Every second sample: 5, 1, 4, 9 for 12, and 3.
hist_median-samples : hist_median (hist_add (hist_create 9) samples 1) ≡ 4
unfolding hist_median hist_add hist_create median_loop add_samples every increment
hist_median-samples = refl

hist_median_lem_example :
    (below 9 (hist_median (hist_add (hist_create 9) samples 1)) (every 1 0 samples)
      ≤ length samples / (1 + 1) / 2)
    × (length samples / (1 + 1) / 2
        < below 9 (hist_median (hist_add (hist_create 9) samples 1) + 1) (every 1 0 samples))
    × (hist_median (hist_add (hist_create 9) samples 1) ≤ 9)
hist_median_lem_example =
    hist_median_lem 9 1 samples (omega arith) (omega arith) (unfold every in omega arith)
