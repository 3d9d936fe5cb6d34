-- ===== src/Index/Encode.antt =====
-- The XREF block that `make_index` of mlvfs/index.c builds from the sorted rows, and the entries
-- that its readers find in it.
use mlvfs.Base.{
  ℕ, zero, suc, ◌+◌, ◌*◌, ◌/◌, ◌%◌, ◌^◌, ◌<◌, ◌≡◌, refl, ap, ◌∙◌, Option, none, some, List, [], ◌∷◌,
  ◌++◌, map, length, drop, All, arith, Bytes, le_value, le_bytes, le_value-le_bytes, slice,
}
use mlvfs.Index.Row.{FrameXref}
use mlvfs.Index.Block.{xref}
use mlvfs.Index.Sort.{xref_sort}
use mlvfs.Index.Scan.{scan_chunks}

-- `mlv_xref_t`, without its unused byte.
pub record Xref : Type 0 where
  pub file_number : ℕ
  pub frame_type : ℕ
  pub frame_offset : ℕ

abbrev pub sizeof_mlv_xref_hdr : ℕ
sizeof_mlv_xref_hdr = 24

abbrev pub sizeof_mlv_xref : ℕ
sizeof_mlv_xref = 12

unfoldable pub xref_bytes : FrameXref → Bytes
xref_bytes x =
    le_bytes 2 x.file_number
    ++ (le_bytes 1 0 ++ (le_bytes 1 x.frame_type ++ le_bytes 8 x.frame_offset))

unfoldable pub entry_bytes : List FrameXref → Bytes
entry_bytes [] = []
entry_bytes (x ∷ xs) = xref_bytes x ++ entry_bytes xs

-- The block: type, size, timestamp, frame type, entry count, entries.
unfoldable pub index_hdr_bytes : ℕ → Bytes
index_hdr_bytes n =
    xref
    ++ (le_bytes 4 ((sizeof_mlv_xref_hdr + n * sizeof_mlv_xref) % 2 ^ 32)
        ++ (le_bytes 8 0 ++ (le_bytes 4 0 ++ le_bytes 4 n)))

unfoldable pub index_bytes : List FrameXref → Bytes
index_bytes rows = index_hdr_bytes (length rows) ++ entry_bytes rows

-- `none` is a scan out of fuel, which does not happen. Memory is at hand.
unfoldable pub make_index : Bytes → List Bytes → Option Bytes
make_index stack files =
    elim (scan_chunks stack files 0 (record { main_header = le_bytes 52 0; rows = [] })) [
      | none ↦ none
      | some s ↦ some (index_bytes (xref_sort s.rows))
    ]

-- What a reader takes for entry `xrefs[k]`, and for `entryCount`.
unfoldable pub xref_at : Bytes → Xref
xref_at bs = record {
  file_number = le_value (slice bs 0 2);
  frame_type = le_value (slice bs 3 1);
  frame_offset = le_value (slice bs 4 8);
}

unfoldable pub read_xrefs : ℕ → Bytes → List Xref
read_xrefs zero bs = []
read_xrefs (suc n) bs = xref_at bs ∷ read_xrefs n (drop sizeof_mlv_xref bs)

unfoldable pub entry_count : Bytes → ℕ
entry_count index = le_value (slice index 20 4)

unfoldable pub index_xrefs : Bytes → List Xref
index_xrefs index = read_xrefs (entry_count index) (drop sizeof_mlv_xref_hdr index)

-- The row fits the fields of an entry.
pub record Fits (x : FrameXref) : Type 0 where
  pub file_number : x.file_number < 256 ^ 2
  pub frame_type : x.frame_type < 256 ^ 1
  pub frame_offset : x.frame_offset < 256 ^ 8

abbrev pub xref_of : FrameXref → Xref
xref_of x = record {
  file_number = x.file_number;
  frame_type = x.frame_type;
  frame_offset = x.frame_offset;
}

xref_at-append :
    (x : FrameXref) (rest : Bytes) → Fits x → xref_at (xref_bytes x ++ rest) ≡ xref_of x
unfolding xref_at xref_bytes le_bytes le_value slice
xref_at-append x rest f =
    let number : x.file_number % 256 + 256 * (x.file_number / 256 % 256 + 256 * 0) ≡ x.file_number =
      omega (arith, f.file_number) in
    let type : x.frame_type % 256 + 256 * 0 ≡ x.frame_type = omega (arith, f.frame_type) in
    let offset : le_value (le_bytes 8 x.frame_offset) ≡ x.frame_offset =
      le_value-le_bytes 8 x.frame_offset f.frame_offset in
    rw (number, type, offset)

drop-xref_bytes : (x : FrameXref) (rest : Bytes) → drop 12 (xref_bytes x ++ rest) ≡ rest
unfolding xref_bytes le_bytes
drop-xref_bytes x rest = refl

read_xrefs-entry_bytes :
    (rows : List FrameXref)
    → All Fits rows
    → read_xrefs (length rows) (entry_bytes rows) ≡ map xref_of rows
unfolding read_xrefs entry_bytes
read_xrefs-entry_bytes [] f = refl
read_xrefs-entry_bytes (x ∷ xs) f =
    rw (xref_at-append x (entry_bytes xs) f.0, drop-xref_bytes x (entry_bytes xs))
      (ap (◌∷◌ (xref_of x)) (read_xrefs-entry_bytes xs f.1))

entry_count-index_bytes :
    (rows : List FrameXref) → length rows < 256 ^ 4 → entry_count (index_bytes rows) ≡ length rows
unfolding entry_count index_bytes index_hdr_bytes slice le_bytes
entry_count-index_bytes rows h = le_value-le_bytes 4 (length rows) h

drop-index_bytes : (rows : List FrameXref) → drop 24 (index_bytes rows) ≡ entry_bytes rows
unfolding index_bytes index_hdr_bytes le_bytes
drop-index_bytes rows = refl

-- A reader of the block finds the rows again, in order, without their times, as long as their
-- number and their values fit the fields of the block.
pub index_xrefs-index_bytes :
    (rows : List FrameXref)
    → length rows < 256 ^ 4
    → All Fits rows
    → index_xrefs (index_bytes rows) ≡ map xref_of rows
unfolding index_xrefs
index_xrefs-index_bytes rows h f =
    rw (entry_count-index_bytes rows h, drop-index_bytes rows) (read_xrefs-entry_bytes rows f)

length-entry_bytes : (rows : List FrameXref) → length (entry_bytes rows) ≡ length rows * 12
unfolding entry_bytes xref_bytes le_bytes
length-entry_bytes [] = refl
length-entry_bytes (x ∷ xs) = omega (arith, length-entry_bytes xs)

-- The size that the block states is its length, as long as that fits 32 bits.
pub block_size-index_bytes :
    (rows : List FrameXref)
    → 24 + length rows * 12 < 256 ^ 4
    → (le_value (slice (index_bytes rows) 4 4) ≡ length (index_bytes rows))
      × (length (index_bytes rows) ≡ 24 + length rows * 12)
      × (slice (index_bytes rows) 0 4 ≡ xref)
unfolding index_bytes index_hdr_bytes slice le_bytes
block_size-index_bytes rows h =
    let n = 24 + length rows * 12 in
    let size : le_value (le_bytes 4 (n % 2 ^ 32)) ≡ n =
      le_value-le_bytes 4 (n % 2 ^ 32) (omega arith) ∙ (omega arith) in
    (size ∙ (omega (arith, length-entry_bytes rows)), omega (arith, length-entry_bytes rows), refl)
