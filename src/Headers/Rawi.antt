-- ===== src/Headers/Rawi.antt =====
-- Whether `mlv_get_frame_headers` of mlvfs/main.c has read a RAWI block when it finds a frame.
use mlvfs.Base.{
  or_assoc, ℕ, zero, suc, ◌+◌, ◌≡◌, refl, ◌∙◌, inl, inr, Bool, false, ◌&&◌, ◌||◌, none, some, List,
  [], ◌∷◌, length, get_or, ◌==◌, if◌then◌else◌, Bytes, bytes_eq, eq_of_bytes_eq, arith, Bool-cases,
  Option-cases, read_at, slice, drop, slice-append_left, length-slice, read_at-le, read_at-slice,
  ◌≤◌,
}
use mlvfs.Index.Block.{MlvHdr, mlv_hdr, mlvi, mlv_frame_vidf, mlv_frame_audf}
use mlvfs.Index.Scan.{overlay}
use mlvfs.Index.Encode.{Xref}
use mlvfs.Headers.{
  FrameHeaders, SearchState, rtci, idnt, rawi, read_whole, read_block, search_vidf, search_other,
  search_entry,
}
use mlvfs.Headers.Search.{
  search-found, search-next, search_entry-other, search_entry-vidf, search_vidf-hit,
  search_vidf-miss, vidf_at, search_all,
}

-- A RAWI block that can be read whole.
abbrev pub is_rawi_block : Bytes → Xref → Bool
is_rawi_block file x = elim (read_at file x.frame_offset 16) [
  | none ↦ false
  | some bs ↦
      bytes_eq (mlv_hdr bs).block_type rawi && read_whole file x.frame_offset 180 (mlv_hdr bs)
]

-- An entry of the index, no frame, that stands for one.
abbrev pub is_rawi : List Bytes → Xref → Bool
is_rawi chunks x =
    if x.frame_type == mlv_frame_audf
    then false
    else is_rawi_block (get_or chunks x.file_number []) x

-- Whether one stands before the `k`-th video frame.
abbrev pub rawi_before : List Bytes → ℕ → List Xref → Bool
rawi_before chunks k [] = false
rawi_before chunks zero (x ∷ xs) =
    if x.frame_type == mlv_frame_vidf then false else rawi_before chunks zero xs || is_rawi chunks x
rawi_before chunks (suc k) (x ∷ xs) =
    if x.frame_type == mlv_frame_vidf
    then rawi_before chunks k xs
    else rawi_before chunks (suc k) xs || is_rawi chunks x

-- A type that is RAWI is none of those tested before.
not_before :
    (t : Bytes)
    → t ≡ rawi
    → (bytes_eq t mlvi ≡ false) × (bytes_eq t rtci ≡ false) × (bytes_eq t idnt ≡ false)
unfolding bytes_eq
not_before t e = rw e (refl, refl, refl)

read_block-rawi :
    (file : Bytes) (position : ℕ) (h : MlvHdr) (r : Bool) (f : FrameHeaders)
    → (read_block file position h r f).1
      ≡ (bytes_eq h.block_type rawi && read_whole file position 180 h) || r
unfolding read_block
read_block-rawi file position h r f = elim (Bool-cases (bytes_eq h.block_type rawi)) [
  | inl e ↦
      let (a, b, c) = not_before h.block_type (eq_of_bytes_eq h.block_type rawi e) in
      elim (Bool-cases (read_whole file position 180 h)) [
        | inl w ↦ rw (a, b, c, e, w) refl
        | inr w ↦ rw (a, b, c, e, w) refl
      ]
  | inr e ↦ ground (arith, e)
]

-- A header that was read whole hides what the variable held.
pub mlv_hdr-overlay :
    (file : Bytes) (position : ℕ) (bs old : Bytes)
    → read_at file position 16 ≡ some bs
    → mlv_hdr (overlay (slice file position 16) old) ≡ mlv_hdr bs
unfolding mlv_hdr overlay
mlv_hdr-overlay file position bs old h =
    let same : slice file position 16 ≡ bs = read_at-slice file position 16 bs h in
    let long : length (slice file position 16) ≡ 16 =
      length-slice file position 16 (read_at-le file position 16 bs h) in
    let part = λ (i n : ℕ) (le : i + n ≤ 16).
      slice-append_left (slice file position 16) (drop (length (slice file position 16)) old) i n
        (omega arith) in
    rw (part 0 4 (omega arith), part 4 4 (omega arith), part 8 8 (omega arith), same) refl

search_other-rawi :
    (file : Bytes) (x : Xref) (s : SearchState)
    → (search_other file x s).rawi_found ≡ is_rawi_block file x || s.rawi_found
unfolding search_other
search_other-rawi file x s = elim (Option-cases (read_at file x.frame_offset 16)) [
  | inl e ↦ rw (e, search_other, is_rawi_block) refl
  | inr (bs, e) ↦
      rw (e, search_other, is_rawi_block, mlv_hdr-overlay file x.frame_offset bs s.block e)
        (read_block-rawi file x.frame_offset (mlv_hdr bs) s.rawi_found s.headers)
]

search_entry-rawi :
    (chunks : List Bytes) (index : ℕ) (x : Xref) (s : SearchState)
    → (x.frame_type == mlv_frame_vidf) ≡ false
    → (search_entry (get_or chunks x.file_number []) index x s).rawi_found
      ≡ is_rawi chunks x || s.rawi_found
unfolding search_entry
search_entry-rawi chunks index x s h = elim (Bool-cases (x.frame_type == mlv_frame_audf)) [
  | inl e ↦ rw (h, e) refl
  | inr e ↦ rw (h, e) (search_other-rawi (get_or chunks x.file_number []) x s)
]

search_vidf-rawi :
    (index : ℕ) (file : Bytes) (x : Xref) (s : SearchState)
    → (search_vidf index file x s).rawi_found ≡ s.rawi_found
unfolding search_vidf
search_vidf-rawi index file x s = ground arith

pub search_rawi :
    (chunks : List Bytes) (index k : ℕ) (xs : List Xref) (s : SearchState) (x : Xref)
    → s.found ≡ false
    → index ≡ s.vidf_counter + k
    → vidf_at k xs ≡ some x
    → (search_all chunks index xs s).rawi_found ≡ rawi_before chunks k xs || s.rawi_found
search_rawi chunks index k [] s x f c h = absurd (ground arith)
search_rawi chunks index zero (y ∷ ys) s x f c h =
    let file = get_or chunks y.file_number [] in
    let step = search-next chunks index y ys s f in
    elim (Bool-cases (y.frame_type == mlv_frame_vidf)) [
      | inl e ↦
          let t = search_entry-vidf (get_or chunks y.file_number []) index y s e in
          let hit = search_vidf-hit index file y s (ground arith) in
          let stop = search-found chunks index ys (search_vidf index file y s) hit.0 in
          rw (step, t, stop, e) (search_vidf-rawi index file y s)
      | inr e ↦
          let keep = search_entry-other (get_or chunks y.file_number []) index y s e in
          let rest =
            search_rawi chunks index zero ys
              (search_entry (get_or chunks y.file_number []) index y s) x (keep.0 ∙ f)
              (omega (arith, keep.1)) (ground arith) in
          rw (step, e, rest, search_entry-rawi chunks index y s e)
            (or_assoc (rawi_before chunks zero ys) (is_rawi chunks y) s.rawi_found)
    ]
search_rawi chunks index (suc k) (y ∷ ys) s x f c h =
    let file = get_or chunks y.file_number [] in
    let step = search-next chunks index y ys s f in
    elim (Bool-cases (y.frame_type == mlv_frame_vidf)) [
      | inl e ↦
          let t = search_entry-vidf (get_or chunks y.file_number []) index y s e in
          let keep = search_vidf-miss index file y s (ground arith) in
          let rest =
            search_rawi chunks index k ys (search_vidf index file y s) x (keep.0 ∙ f)
              (omega (arith, keep.1)) (ground arith) in
          rw (step, t, e, rest, search_vidf-rawi index file y s) refl
      | inr e ↦
          let keep = search_entry-other (get_or chunks y.file_number []) index y s e in
          let rest =
            search_rawi chunks index (suc k) ys
              (search_entry (get_or chunks y.file_number []) index y s) x (keep.0 ∙ f)
              (omega (arith, keep.1)) (ground arith) in
          rw (step, e, rest, search_entry-rawi chunks index y s e)
            (or_assoc (rawi_before chunks (suc k) ys) (is_rawi chunks y) s.rawi_found)
    ]
