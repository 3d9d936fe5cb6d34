-- ===== src/Index/Scan/Fuel.antt =====
-- The scan of mlvfs/index.c ends: every round moves on by a whole block header or more.
use mlvfs.Base.{
  ℕ, zero, suc, ◌+◌, ◌≤◌, ◌<◌, ◌≡◌, refl, some, List, [], ◌∷◌, length, Bytes, bytes_eq, read_at,
  read_at-le, Bool-cases, arith, Option-cases, inl, inr,
}
use mlvfs.Index.Block.{MlvHdr, mlv_hdr, mlvi}
use mlvfs.Index.Scan.{
  ScanState, Round, left, on, bad_size, read_file_hdr, round_block, scan_round, scan_chunk,
  scan_chunks,
}

-- A round that goes on moves past the header, which lies inside the file.
pub Advances : Bytes → ℕ → Round → Type 0
Advances file position (left s) = Unit {0}
Advances file position (on s position') = (position < position') × (position + 16 ≤ length file)

round_block-Advances :
    (stack file : Bytes) (chunk position : ℕ) (s : ScanState) (h : MlvHdr)
    → position + 16 ≤ length file
    → Advances file position (round_block stack file chunk position s h)
unfolding round_block Advances
round_block-Advances stack file chunk position s h fits = elim (Bool-cases (bad_size h)) [
  | inl e ↦ rw e tt
  | inr e ↦
      let more : 16 ≤ h.block_size = ground arith in
      elim (Bool-cases (bytes_eq h.block_type mlvi)) [
        | inr e' ↦ rw (e, e') (omega arith, fits)
        | inl e' ↦ elim (Option-cases (read_file_hdr stack file position h s.main_header)) [
          | inl r ↦ rw (e, e', r) tt
          | inr (m, r) ↦ rw (e, e', r) (omega arith, fits)
        ]
      ]
]

scan_round-Advances :
    (stack file : Bytes) (chunk position : ℕ) (s : ScanState)
    → Advances file position (scan_round stack file chunk position s)
unfolding scan_round Advances
scan_round-Advances stack file chunk position s = elim (Option-cases (read_at file position 16)) [
  | inl e ↦ rw (e, scan_round) tt
  | inr (bs, e) ↦
      rw (e, scan_round)
        (round_block-Advances stack file chunk position s (mlv_hdr bs)
          (read_at-le file position 16 bs e))
]

-- With one round of fuel for each byte that is left the scan of a chunk returns.
pub scan_chunk_total :
    (fuel : ℕ) (stack file : Bytes) (chunk position : ℕ) (s : ScanState)
    → 0 < fuel
    → length file < position + fuel
    → (r : ScanState) × (scan_chunk fuel stack file chunk position s ≡ some r)
unfolding scan_chunk Advances
scan_chunk_total zero stack file chunk position s o h = absurd (omega arith)
scan_chunk_total (suc fuel) stack file chunk position s o h =
    go (scan_round stack file chunk position s) refl
      (scan_round-Advances stack file chunk position s) (scan_chunk_total fuel stack file chunk)
  where
    go :
        (r : Round)
        → scan_round stack file chunk position s ≡ r
        → Advances file position r
        → ((p : ℕ) (t : ScanState)
            → 0 < fuel
            → length file < p + fuel
            → (s' : ScanState) × (scan_chunk fuel stack file chunk p t ≡ some s'))
        → (s' : ScanState) × (scan_chunk (suc fuel) stack file chunk position s ≡ some s')
    go (left s') e a ih = (s', rw (e, scan_chunk))
    go (on s' position') e a ih =
        let r = ih position' s' (omega arith) (omega arith) in (r.0, rw (e, scan_chunk) r.1)

-- So the scan of all chunks returns, whatever they hold.
pub scan_chunks_total :
    (stack : Bytes) (files : List Bytes) (chunk : ℕ) (s : ScanState)
    → (r : ScanState) × (scan_chunks stack files chunk s ≡ some r)
unfolding scan_chunks
scan_chunks_total stack [] chunk s = (s, refl)
scan_chunks_total stack (file ∷ files) chunk s =
    let r = scan_chunk_total (suc (length file)) stack file chunk 0 s (omega arith) (omega arith) in
    let t = scan_chunks_total stack files (chunk + 1) r.0 in (t.0, rw (r.1, scan_chunks) t.1)
