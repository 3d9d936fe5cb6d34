-- ===== src/Index/Store.antt =====
-- The chunk files and the IDX file of mlvfs/index.c: `load_chunks`, `load_index`, `save_index`,
-- `build_index`, `force_index` and `get_index` over a disk.
pub mod RoundTrip
pub mod Total
pub mod Rebuild
use mlvfs.Base.{
  ℕ, zero, suc, ◌+◌, ◌-◌, ◌/◌, ◌%◌, Bool, true, false, Option, none, some, List, [], ◌∷◌, ◌++◌,
  length, take, drop, ◌==◌, if◌then◌else◌, Bytes, bytes_eq, le_value, le_bytes, slice, read_at,
}
use mlvfs.Index.Block.{MlvHdr, mlv_hdr, sizeof_mlv_hdr, sizeof_mlv_file_hdr, xref, mlv_frame_vidf}
use mlvfs.Index.Encode.{Xref, make_index, index_xrefs}

-- The files by name, and the names that can be opened for writing. Memory is at hand.
pub record Disk : Type 0 where
  pub files : Bytes → Option Bytes
  pub writable : Bytes → Bool

unfoldable pub write_file : Bytes → Bytes → Disk → Disk
write_file name contents d = record d {
  files = λ n. if bytes_eq name n then some contents else d.files n;
}

-- `strcpy(&filename[strlen(filename) - n], suffix)`, for names of at least `n` bytes.
unfoldable pub with_suffix : ℕ → Bytes → Bytes → Bytes
with_suffix n suffix name = take (length name - n) name ++ suffix

abbrev pub idx_name : Bytes → Bytes
idx_name name = with_suffix 3 (b'I' ∷ b'D' ∷ b'X' ∷ []) name

-- `"%02d"` of a number below 100.
abbrev pub two_digits : ℕ → Bytes
two_digits k = (b'0' + k / 10) ∷ (b'0' + k % 10) ∷ []

-- The `while` of `load_chunks` from `seq_number`, with `n` numbers left.
unfoldable pub next_chunks : ℕ → ℕ → Bytes → Disk → List Bytes
next_chunks zero seq_number name d = []
next_chunks (suc n) seq_number name d =
    elim (d.files (with_suffix 2 (two_digits seq_number) name)) [
      | none ↦ []
      | some f ↦ f ∷ next_chunks n (seq_number + 1) name d
    ]

-- The contents of the chunks, or `none` if the first cannot be opened.
unfoldable pub load_chunks : Bytes → Disk → Option (List Bytes)
load_chunks name d = elim (d.files name) [
  | none ↦ none
  | some f ↦ some (f ∷ next_chunks 99 0 name d)
]

-- The `do … while` of `load_index` at `position`, with the block found so far. The outer `none`
-- is out of fuel; a block that cannot be read whole ends the loop without one.
unfoldable pub load_loop : ℕ → Bytes → ℕ → Option Bytes → Option (Option Bytes)
load_loop zero f position block = none
load_loop (suc fuel) f position block = elim (read_at f position sizeof_mlv_hdr) [
  | none ↦ some block
  | some bs ↦
      let size = (mlv_hdr bs).block_size in
      let skip = load_loop fuel f (position + size) block in
      let found : Option (Option Bytes) = elim (read_at f position size) [
        | none ↦ some none
        | some b ↦ load_loop fuel f (position + size) (some b)
      ] in
      if bytes_eq (mlv_hdr bs).block_type xref
      then found
      else if size == 0
      then some block
      else skip
]

unfoldable pub load_index : Bytes → Disk → Option (Option Bytes)
load_index name d = elim (d.files (idx_name name)) [
  | none ↦ some none
  | some f ↦ load_loop (suc (length f)) f 0 none
]

-- The file header as `save_index` updates it: `blockSize`, `fileNum` and the frame counts.
unfoldable pub saved_file_hdr : Bytes → ℕ → Bytes
saved_file_hdr hdr file_count =
    slice hdr 0 4
    ++ (le_bytes 4 sizeof_mlv_file_hdr
        ++ (slice hdr 8 16
            ++ (le_bytes 2 (file_count + 1)
                ++ (slice hdr 26 10 ++ (le_bytes 4 0 ++ (le_bytes 4 0 ++ slice hdr 44 8))))))

unfoldable pub save_index : Bytes → Bytes → ℕ → Bytes → Disk → Disk
save_index name hdr file_count index d =
    if d.writable (idx_name name)
    then write_file (idx_name name)
        (saved_file_hdr hdr file_count ++ take (le_value (slice index 4 4)) index) d
    else d

-- The first chunk's header, or what the variable held if it cannot be read whole.
unfoldable pub main_header_of : Bytes → List Bytes → Bytes
main_header_of stack [] = stack
main_header_of stack (f ∷ fs) = elim (read_at f 0 sizeof_mlv_file_hdr) [ none ↦ stack | some h ↦ h ]

unfoldable pub build_index : Bytes → Bytes → List Bytes → Disk → Option Disk
build_index stack name chunks d = elim (make_index stack chunks) [
  | none ↦ none
  | some index ↦ some (save_index name (main_header_of stack chunks) (length chunks) index d)
]

-- The index and the disk. The outer `none` is out of fuel.
unfoldable pub force_index : Bytes → Bytes → Disk → Option (Option Bytes × Disk)
force_index stack name d = elim (load_chunks name d) [
  | none ↦ some (none, d)
  | some chunks ↦ elim (build_index stack name chunks d) [
    | none ↦ none
    | some d' ↦ elim (load_index name d') [ none ↦ none | some i ↦ some (i, d') ]
  ]
]

unfoldable pub get_index : Bytes → Bytes → Disk → Option (Option Bytes × Disk)
get_index stack name d = elim (load_index name d) [
  | none ↦ none
  | some (some i) ↦ some (some i, d)
  | some none ↦ force_index stack name d
]

-- The loop over the entries in `mlv_get_frame_count`.
unfoldable pub count_vidf : List Xref → ℕ
count_vidf [] = 0
count_vidf (x ∷ xs) = (if x.frame_type == mlv_frame_vidf then 1 else 0) + count_vidf xs

unfoldable pub mlv_get_frame_count : Bytes → Bytes → Disk → Option (ℕ × Disk)
mlv_get_frame_count stack name d = elim (get_index stack name d) [
  | none ↦ none
  | some (none, d') ↦ some (0, d')
  | some (some i, d') ↦
      let n = count_vidf (index_xrefs i) in
      let again : Option (ℕ × Disk) = elim (force_index stack name d') [
        | none ↦ none
        | some (none, d'') ↦ some (0, d'')
        | some (some j, d'') ↦ some (count_vidf (index_xrefs j), d'')
      ] in
      if n == 0 then again else some (n, d')
]
