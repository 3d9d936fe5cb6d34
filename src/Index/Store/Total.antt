-- ===== src/Index/Store/Total.antt =====
-- The functions of mlvfs/index.c that make, load and get an index always return, and what they
-- return.
use mlvfs.Base.{
  ℕ, zero, suc, ◌+◌, ◌≤◌, ◌<◌, ◌≡◌, refl, ap, Option, none, some, List, [], ◌∷◌, length, arith,
  Bytes, bytes_eq, le_bytes, read_at, read_at-le, read_at-pos, All, Option-cases, Bool-cases, inl,
  inr, ◌==◌,
}
use mlvfs.Index.Row.{FrameXref}
use mlvfs.Index.Block.{mlv_hdr, xref}
use mlvfs.Index.Sort.{xref_sort}
use mlvfs.Index.Sort.Order.{IsSorted}
use mlvfs.Index.Sort.Pass.{xref_sort_lem, xref_sort-All}
use mlvfs.Index.Scan.{ScanState}
use mlvfs.Index.Scan.Fuel.{scan_chunks_total}
use mlvfs.Index.Scan.Sound.{Describes, scan_chunks_sound}
use mlvfs.Index.Encode.{index_bytes, make_index}
use mlvfs.Index.Store.{
  Disk, next_chunks, load_chunks, load_loop, load_index, idx_name, with_suffix, two_digits,
}

-- From any chunks, 65536 at most, an index is made. It is the XREF block of rows that ascend in
-- time, each of which describes a block of the chunk that it names.
pub make_index_lem :
    (stack : Bytes) (files : List Bytes)
    → length files ≤ 65536
    → (rows : List FrameXref) × (make_index stack files ≡ some (index_bytes rows))
      × IsSorted rows
      × All (Describes files) rows
unfolding make_index
make_index_lem stack files few =
    let s0 : ScanState = record { main_header = le_bytes 52 0; rows = [] } in
    let r = scan_chunks_total stack files 0 s0 in
    let sound = scan_chunks_sound stack files [] files s0 r.0 refl few tt r.1 in
    (
      xref_sort r.0.rows,
      rw (r.1, make_index),
      (xref_sort_lem r.0.rows).0,
      xref_sort-All (Describes files) r.0.rows sound,
    )

length-next_chunks :
    (n seq_number : ℕ) (name : Bytes) (d : Disk) → length (next_chunks n seq_number name d) ≤ n
unfolding next_chunks
length-next_chunks zero k name d = omega arith
length-next_chunks (suc n) k name d =
    elim (Option-cases (d.files (with_suffix 2 (two_digits k) name))) [
      | inl e ↦ rw (e, next_chunks) (omega arith)
      | inr (f, e) ↦ rw (e, next_chunks) (omega (arith, length-next_chunks n (k + 1) name d))
    ]

-- At most a hundred chunks are opened, which is what `close_chunks` accepts, and at least one.
pub length-load_chunks :
    (name : Bytes) (d : Disk) (chunks : List Bytes)
    → load_chunks name d ≡ some chunks
    → (0 < length chunks) × (length chunks ≤ 100)
unfolding load_chunks
length-load_chunks name d chunks e = elim (Option-cases (d.files name)) [
  | inl h ↦ absurd (ground arith)
  | inr (f, h) ↦
      let same : f ∷ next_chunks 99 0 name d ≡ chunks = ground arith in
      (omega (arith, ap length same), omega (arith, ap length same, length-next_chunks 99 0 name d))
]

load_loop_total :
    (fuel : ℕ) (f : Bytes) (position : ℕ) (block : Option Bytes)
    → 0 < fuel
    → length f < position + fuel
    → (r : Option Bytes) × (load_loop fuel f position block ≡ some r)
unfolding load_loop
load_loop_total zero f position block o h = absurd (omega arith)
load_loop_total (suc fuel) f position block o h = elim (Option-cases (read_at f position 16)) [
  | inl e ↦ (block, rw (e, load_loop))
  | inr (bs, e) ↦
      let size = (mlv_hdr bs).block_size in
      let here = read_at-le f position 16 bs e in
      elim (Bool-cases (bytes_eq (mlv_hdr bs).block_type xref)) [
        | inl t ↦ elim (Option-cases (read_at f position size)) [
          | inl g ↦ (none, rw (e, load_loop, t, g))
          | inr (b, g) ↦
              let pos : 0 < size = read_at-pos f position size b g in
              let r =
                load_loop_total fuel f (position + size) (some b) (omega arith) (omega arith) in
              (r.0, rw (e, load_loop, t, g) r.1)
        ]
        | inr t ↦ elim (Bool-cases (size == 0)) [
          | inl z ↦ (block, rw (e, load_loop, t, z))
          | inr z ↦
              let pos : 0 < size = ground arith in
              let r = load_loop_total fuel f (position + size) block (omega arith) (omega arith) in
              (r.0, rw (e, load_loop, t, z) r.1)
        ]
      ]
]

-- The load of an index ends, whatever the IDX file holds.
pub load_index_total : (name : Bytes) (d : Disk) → (r : Option Bytes) × (load_index name d ≡ some r)
unfolding load_index
load_index_total name d = elim (Option-cases (d.files (idx_name name))) [
  | inl e ↦ (none, rw (e, load_index))
  | inr (f, e) ↦
      let r = load_loop_total (suc (length f)) f 0 none (omega arith) (omega arith) in
      (r.0, rw (e, load_index) r.1)
]
