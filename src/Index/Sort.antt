-- ===== src/Index/Sort.antt =====
-- `xref_sort` of mlvfs/index.c: a bubble sort by time that remembers where it last swapped.
pub mod Pass
pub mod Order
use mlvfs.Base.{
  ℕ, zero, suc, ◌+◌, ◌-◌, Bool, true, false, List, [], ◌∷◌, ltb, if◌then◌else◌, length,
}
use mlvfs.Index.Row.{FrameXref}

-- What one run of the `for` leaves: the part of the table from `i` on, and `newn`.
pub record PassResult : Type 0 where
  pub table : List FrameXref
  pub newn : ℕ

abbrev pub before : FrameXref → PassResult → PassResult
before x r = record r { table = x ∷ r.table }

-- The `for` from index `i`, with `rounds` comparisons left. `x` is `table[i]` as the swaps so far
-- have left it, and the list is the table behind it.
unfoldable pub pass : ℕ → ℕ → FrameXref → List FrameXref → ℕ → PassResult
pass zero i x ys newn = record { table = x ∷ ys; newn = newn }
pass (suc rounds) i x [] newn = record { table = x ∷ []; newn = newn }
pass (suc rounds) i x (y ∷ ys) newn =
    let swapped = before y (pass rounds (i + 1) x ys (i + 1)) in
    let kept = before x (pass rounds (i + 1) y ys newn) in
    if ltb y.frame_time x.frame_time then swapped else kept

abbrev pub run_pass : ℕ → List FrameXref → PassResult
run_pass n [] = record { table = []; newn = 1 }
run_pass n (x ∷ xs) = pass (n - 1) 0 x xs 1

-- The `do … while (n > 1)`. Every pass lowers `n`, so `n` rounds of fuel are enough.
unfoldable pub sort_loop : ℕ → ℕ → List FrameXref → List FrameXref
sort_loop zero n table = table
sort_loop (suc fuel) n table =
    let r = run_pass n table in
    let rest = sort_loop fuel r.newn r.table in if ltb 1 r.newn then rest else r.table

unfoldable pub xref_sort : List FrameXref → List FrameXref
unfolding sort_loop pass
xref_sort table = sort_loop (length table) (length table) table
