-- ===== src/Index/Scan/Sound.antt =====
-- Every row that the scan of mlvfs/index.c makes describes a block of the chunk it names.
use mlvfs.Base.{
  ℕ, zero, suc, ◌+◌, ◌%◌, ◌≤◌, ◌<◌, ◌≡◌, refl, sym, ap, subst, false, some, List, [], ◌∷◌, ◌++◌,
  if◌then◌else◌, length, Bytes, bytes_eq, read_at, arith, Option-cases, inl, inr, Bool-cases, All,
  All-append, get_elem?, get_elem?-append_length, append_assoc, ◌∙◌, length-append,
}
use mlvfs.Index.Row.{FrameXref}
use mlvfs.Index.Block.{mlv_hdr, mlvi, null}
use mlvfs.Index.Scan.{
  ScanState, Round, left, on, bad_size, read_file_hdr, frame_type_of, add_row, round_block,
  scan_round, scan_chunk, scan_chunks,
}

-- The row's file number is a chunk's, in which a whole header stands at the row's offset, of a
-- legal size and not of type NULL; its type is the row's, and its time too, 0 for an MLVI block.
pub record Describes (files : List Bytes) (x : FrameXref) : Type 0 where
  pub file : Bytes
  pub header : Bytes
  pub at_chunk : get_elem? files x.file_number ≡ some file
  pub at_offset : read_at file x.frame_offset 16 ≡ some header
  pub legal : bad_size (mlv_hdr header) ≡ false
  pub not_null : bytes_eq (mlv_hdr header).block_type null ≡ false
  pub typed : x.frame_type ≡ frame_type_of (mlv_hdr header).block_type
  pub timed :
      x.frame_time
      ≡ (if bytes_eq (mlv_hdr header).block_type mlvi then 0 else (mlv_hdr header).timestamp)

module _ (files : List Bytes) where
  RoundSound : Round → Type 0
  RoundSound (left s) = All (Describes files) s.rows
  RoundSound (on s position) = All (Describes files) s.rows

  module _ (stack file : Bytes) (chunk : ℕ) (chunk_at : get_elem? files chunk ≡ some file)
      (fits : chunk < 65536) where
    add_row-Describes :
        (position time : ℕ) (bs : Bytes) (rows : List FrameXref)
        → read_at file position 16 ≡ some bs
        → bad_size (mlv_hdr bs) ≡ false
        → time ≡ (if bytes_eq (mlv_hdr bs).block_type mlvi then 0 else (mlv_hdr bs).timestamp)
        → All (Describes files) rows
        → All (Describes files) (add_row chunk position time (mlv_hdr bs) rows)
    add_row-Describes position time bs rows e b t a =
        let small : chunk % 65536 ≡ chunk = omega arith in
        elim (Bool-cases (bytes_eq (mlv_hdr bs).block_type null)) [
          | inl n ↦ rw n a
          | inr n ↦ rw n (
              All-append (Describes files) rows _ a (
                record {
                  file = file;
                  header = bs;
                  at_chunk = rw small chunk_at;
                  at_offset = e;
                  legal = b;
                  not_null = n;
                  typed = refl;
                  timed = t;
                },
                tt,
              ))
        ]

    round_block_sound :
        (position : ℕ) (s : ScanState) (bs : Bytes)
        → read_at file position 16 ≡ some bs
        → All (Describes files) s.rows
        → RoundSound (round_block stack file chunk position s (mlv_hdr bs))
    unfolding round_block RoundSound
    round_block_sound position s bs e a = elim (Bool-cases (bad_size (mlv_hdr bs))) [
      | inl b ↦ rw b a
      | inr b ↦ elim (Bool-cases (bytes_eq (mlv_hdr bs).block_type mlvi)) [
        | inr m ↦
            rw (b, m) (add_row-Describes position (mlv_hdr bs).timestamp bs s.rows e b (rw m) a)
        | inl m ↦
            elim (Option-cases (read_file_hdr stack file position (mlv_hdr bs) s.main_header)) [
              | inl r ↦ rw (b, m, r) a
              | inr (h, r) ↦ rw (b, m, r) (add_row-Describes position 0 bs s.rows e b (rw m) a)
            ]
      ]
    ]

    scan_round_sound :
        (position : ℕ) (s : ScanState)
        → All (Describes files) s.rows
        → RoundSound (scan_round stack file chunk position s)
    unfolding scan_round RoundSound
    scan_round_sound position s a = elim (Option-cases (read_at file position 16)) [
      | inl e ↦ rw (e, scan_round) a
      | inr (bs, e) ↦ rw (e, scan_round) (round_block_sound position s bs e a)
    ]

    scan_chunk_sound :
        (fuel position : ℕ) (s r : ScanState)
        → All (Describes files) s.rows
        → scan_chunk fuel stack file chunk position s ≡ some r
        → All (Describes files) r.rows
    unfolding scan_chunk RoundSound
    scan_chunk_sound zero position s r a e = cc
    scan_chunk_sound (suc fuel) position s r a e =
        go (scan_round stack file chunk position s) refl (scan_round_sound position s a)
          (λ p t. scan_chunk_sound fuel p t r)
      where
        go :
            (q : Round)
            → scan_round stack file chunk position s ≡ q
            → RoundSound q
            → ((p : ℕ) (t : ScanState)
                → All (Describes files) t.rows
                → scan_chunk fuel stack file chunk p t ≡ some r
                → All (Describes files) r.rows)
            → All (Describes files) r.rows
        go (left t) f b ih =
            let same : some t ≡ some r = rw (f, scan_chunk) at e in
            let eq : t ≡ r = cc in subst (λ (u : ScanState). All (Describes files) u.rows) eq b
        go (on t p) f b ih = ih p t b (rw (f, scan_chunk) at e)

-- Every row that the scan of at most 65536 chunks makes describes a block: its file number is a
-- chunk's, in which a whole header of a legal size and not of type NULL stands at the row's
-- offset, and its type and its time are the row's, the time being 0 for an MLVI block.
pub scan_chunks_sound :
    (stack : Bytes) (all done files : List Bytes) (s r : ScanState)
    → all ≡ done ++ files
    → length all ≤ 65536
    → All (Describes all) s.rows
    → scan_chunks stack files (length done) s ≡ some r
    → All (Describes all) r.rows
unfolding scan_chunks
scan_chunks_sound stack all done [] s r parts few a e =
    let eq : s ≡ r = cc in subst (λ (u : ScanState). All (Describes all) u.rows) eq a
scan_chunks_sound stack all done (file ∷ files) s r parts few a e =
    let at : get_elem? all (length done) ≡ some file =
      rw parts (get_elem?-append_length done file files) in
    let fits : length done < 65536 =
      omega (arith, ap length parts, length-append done (file ∷ files)) in
    let parts' : all ≡ (done ++ file ∷ []) ++ files =
      parts ∙ sym (append_assoc done (file ∷ []) files) in
    let next : length done + 1 ≡ length (done ++ file ∷ []) =
      omega (arith, length-append done (file ∷ [])) in
    elim (Option-cases (scan_chunk (suc (length file)) stack file (length done) 0 s)) [
      | inl f ↦ absurd (ground arith)
      | inr (t, f) ↦
          let b =
            scan_chunk_sound all stack file (length done) at fits (suc (length file)) 0 s t a f in
          let e' : scan_chunks stack files (length done + 1) t ≡ some r = ground arith in
          scan_chunks_sound stack all (done ++ file ∷ []) files t r parts' few b (rw next at e')
    ]
