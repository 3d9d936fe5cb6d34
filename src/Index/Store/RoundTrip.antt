-- ===== src/Index/Store/RoundTrip.antt =====
-- An index that mlvfs/index.c saves is the index that it loads.
use mlvfs.Base.{
  ℕ, suc, ◌+◌, ◌-◌, ◌≤◌, ◌≡◌, refl, sym, ap, ◌∙◌, true, false, Option, none, some, [], ◌++◌, length,
  length-append, take, arith, Bytes, bytes_eq, bytes_eq_refl, le_value, le_bytes, length-le_bytes,
  le_value-le_bytes, slice, read_at, read_at_end, append_assoc, length-slice, slice-append,
  slice-take, read_at-prefix, read_at_start, take_all, ◌==◌,
}
use mlvfs.Index.Block.{mlv_hdr, xref}
use mlvfs.Index.Store.{
  Disk, write_file, idx_name, saved_file_hdr, save_index, load_loop, load_index,
}

module _ (f : Bytes) (fuel position : ℕ) (block : Option Bytes) (bs : Bytes) where
  load_loop-skip :
      read_at f position 16 ≡ some bs
      → bytes_eq (mlv_hdr bs).block_type xref ≡ false
      → ((mlv_hdr bs).block_size == 0) ≡ false
      → load_loop (suc fuel) f position block
        ≡ load_loop fuel f (position + (mlv_hdr bs).block_size) block
  unfolding load_loop
  load_loop-skip r t z = rw (r, load_loop, t, z)

  load_loop-found :
      (b : Bytes)
      → read_at f position 16 ≡ some bs
      → bytes_eq (mlv_hdr bs).block_type xref ≡ true
      → read_at f position (mlv_hdr bs).block_size ≡ some b
      → load_loop (suc fuel) f position block
        ≡ load_loop fuel f (position + (mlv_hdr bs).block_size) (some b)
  unfolding load_loop
  load_loop-found b r t z = rw (r, load_loop, t, z)

module _ (hdr : Bytes) (n : ℕ) (whole : length hdr ≡ 52) where
  length-saved_file_hdr : length (saved_file_hdr hdr n) ≡ 52
  unfolding saved_file_hdr le_bytes
  length-saved_file_hdr = omega (
    arith,
    length-append (slice hdr 0 4) (
        le_bytes 4 52
        ++ (slice hdr 8 16
            ++ (le_bytes 2 (n + 1)
                ++ (slice hdr 26 10 ++ (le_bytes 4 0 ++ (le_bytes 4 0 ++ slice hdr 44 8)))))),
    length-append (slice hdr 8 16) (
        le_bytes 2 (n + 1)
        ++ (slice hdr 26 10 ++ (le_bytes 4 0 ++ (le_bytes 4 0 ++ slice hdr 44 8)))),
    length-append (slice hdr 26 10) (le_bytes 4 0 ++ (le_bytes 4 0 ++ slice hdr 44 8)),
    length-slice hdr 0 4,
    length-slice hdr 8 16,
    length-slice hdr 26 10,
    length-slice hdr 44 8,
  )

  -- The header of the saved file: the given type, and its own size.
  mlv_hdr-saved :
      (rest : Bytes)
      → ((mlv_hdr (take 16 (saved_file_hdr hdr n ++ rest))).block_type ≡ slice hdr 0 4)
        × ((mlv_hdr (take 16 (saved_file_hdr hdr n ++ rest))).block_size ≡ 52)
  unfolding mlv_hdr saved_file_hdr
  mlv_hdr-saved rest =
      let a = slice hdr 0 4 in
      let b = le_bytes 4 52 in
      let c =
        slice hdr 8 16
        ++ (le_bytes 2 (n + 1)
            ++ (slice hdr 26 10 ++ (le_bytes 4 0 ++ (le_bytes 4 0 ++ slice hdr 44 8)))) in
      let whole' : (a ++ (b ++ c)) ++ rest ≡ a ++ (b ++ (c ++ rest)) =
        append_assoc a (b ++ c) rest ∙ ap (◌++◌ a) (append_assoc b c rest) in
      let l : length a ≡ 4 = length-slice hdr 0 4 (omega arith) in
      (
        slice-take 16 0 4 _ (omega arith)
            ∙ ap (λ (f : Bytes). slice f 0 4) whole'
            ∙ slice-append [] a (b ++ (c ++ rest)) 0 4 refl l,
        ap le_value (
              slice-take 16 4 4 _ (omega arith)
              ∙ ap (λ (f : Bytes). slice f 4 4) whole'
              ∙ slice-append a b (c ++ rest) 4 4 l (length-le_bytes 4 52))
            ∙ le_value-le_bytes 4 52 (omega arith),
      )

load_loop-end :
    (f : Bytes) (fuel : ℕ) (block : Option Bytes)
    → load_loop (suc fuel) f (length f) block ≡ some block
unfolding load_loop
load_loop-end f fuel block = rw (read_at_end f 16, load_loop)

-- A block of type XREF that states its own length, as `save_index` writes it.
module _ (hdr index : Bytes) (n : ℕ) (whole : length hdr ≡ 52)
    (other : bytes_eq (slice hdr 0 4) xref ≡ false)
    (size : le_value (slice index 4 4) ≡ length index) (large : 24 ≤ length index)
    (type : slice index 0 4 ≡ xref) where
  saved_file : Bytes
  saved_file = saved_file_hdr hdr n ++ index

  length-saved_file : length saved_file ≡ 52 + length index
  unfolding saved_file
  length-saved_file =
      omega (arith, length-append (saved_file_hdr hdr n) index, length-saved_file_hdr hdr n whole)

  read_at-saved : (k : ℕ) → read_at saved_file 52 k ≡ read_at index 0 k
  unfolding saved_file
  read_at-saved k =
      ap (λ (p : ℕ). read_at saved_file p k) (sym (length-saved_file_hdr hdr n whole))
      ∙ read_at-prefix (saved_file_hdr hdr n) index k

  saved_hdr :
      ((mlv_hdr (take 16 saved_file)).block_type ≡ slice hdr 0 4)
      × ((mlv_hdr (take 16 saved_file)).block_size ≡ 52)
  unfolding saved_file
  saved_hdr = mlv_hdr-saved hdr n whole index

  load_loop-header :
      (fuel : ℕ) → load_loop (suc fuel) saved_file 0 none ≡ load_loop fuel saved_file 52 none
  load_loop-header fuel =
      let h = saved_hdr in
      let r = read_at_start saved_file 16 (omega arith) (omega (arith, length-saved_file)) in
      let size' = (mlv_hdr (take 16 saved_file)).block_size in
      let z : (size' == 0) ≡ false = ground (arith, h.1) in
      let p : 0 + size' ≡ 52 = omega (arith, h.1) in
      load_loop-skip saved_file fuel 0 none (take 16 saved_file) r
        (ap (λ (t : Bytes). bytes_eq t xref) h.0 ∙ other) z
      ∙ ap (λ (q : ℕ). load_loop fuel saved_file q none) p

  load_loop-index :
      (fuel : ℕ)
      → load_loop (suc fuel) saved_file 52 none
        ≡ load_loop fuel saved_file (length saved_file) (some index)
  load_loop-index fuel =
      let size' = (mlv_hdr (take 16 index)).block_size in
      let t : (mlv_hdr (take 16 index)).block_type ≡ xref =
        unfold mlv_hdr in (slice-take 16 0 4 index (omega arith) ∙ type) in
      let z : size' ≡ length index =
        unfold mlv_hdr in (ap le_value (slice-take 16 4 4 index (omega arith)) ∙ size) in
      let p : 52 + size' ≡ length saved_file = omega (arith, length-saved_file, z) in
      load_loop-found saved_file fuel 52 none (take 16 index) index
        (read_at-saved 16 ∙ read_at_start index 16 (omega arith) (omega arith))
        (ap (λ (u : Bytes). bytes_eq u xref) t ∙ bytes_eq_refl xref)
        (ap (read_at saved_file 52) z
          ∙ read_at-saved (length index)
          ∙ read_at_start index (length index) (omega arith) (omega arith)
          ∙ ap some (take_all index))
      ∙ ap (λ (q : ℕ). load_loop fuel saved_file q (some index)) p

  load_loop-saved : (fuel : ℕ) → 3 ≤ fuel → load_loop fuel saved_file 0 none ≡ some (some index)
  load_loop-saved fuel h =
      let e : fuel ≡ suc (suc (suc (fuel - 3))) = omega arith in
      rw e (
        load_loop-header (suc (suc (fuel - 3)))
        ∙ load_loop-index (suc (fuel - 3))
        ∙ load_loop-end saved_file (fuel - 3) (some index))

  files-save_index :
      (name : Bytes) (d : Disk)
      → d.writable (idx_name name) ≡ true
      → (save_index name hdr n index d).files (idx_name name) ≡ some saved_file
  unfolding save_index write_file saved_file
  files-save_index name d w =
      let body : take (le_value (slice index 4 4)) index ≡ index =
        ap (λ (k : ℕ). take k index) size ∙ take_all index in
      rw (w, body, bytes_eq_refl (idx_name name))

  -- What `save_index` has written under a name that can be written, `load_index` returns.
  pub load_index-save_index :
      (name : Bytes) (d : Disk)
      → d.writable (idx_name name) ≡ true
      → load_index name (save_index name hdr n index d) ≡ some (some index)
  unfolding load_index
  load_index-save_index name d w =
      rw (files-save_index name d w, load_index)
        (load_loop-saved (suc (length saved_file)) (omega (arith, length-saved_file)))
