-- ===== src/Headers/Count.antt =====
-- The frames that `mlv_get_frame_count` of mlvfs/main.c counts are the frames that
-- `mlv_get_frame_headers` finds.
use mlvfs.Base.{
  All, or_false, ℕ, ◌<◌, ◌≤◌, ◌≡◌, refl, inl, inr, false, ◌&&◌, ◌∙◌, none, some, List, Bytes, ◌==◌,
  arith, Bool-cases, Option-cases,
}
use mlvfs.Index.Encode.{Xref, index_xrefs}
use mlvfs.Index.Store.{
  Disk, load_chunks, load_index, force_index, get_index, build_index, count_vidf,
  mlv_get_frame_count,
}
use mlvfs.Headers.{FrameHeaders, SearchState, start_search, mlv_get_frame_headers}
use mlvfs.Headers.Rawi.{rawi_before, search_rawi}
use mlvfs.Headers.Search.{
  vidf_at, vidf_at-count_vidf, vidf_at_beyond, search_miss, search_hit, FoundAt, InChunks,
  search_all, search-search_all,
}

-- An index that was forced stands on the disk.
force_index-loads :
    (stack name : Bytes) (d d' : Disk) (j : Bytes)
    → force_index stack name d ≡ some (some j, d')
    → load_index name d' ≡ some (some j)
unfolding force_index
force_index-loads stack name d d' j h = elim (Option-cases (load_chunks name d)) [
  | inl e ↦ absurd (ground (arith, e))
  | inr (chunks, e) ↦ elim (Option-cases (build_index stack name chunks d)) [
    | inl f ↦ absurd (ground (arith, e, f))
    | inr (d'', f) ↦ elim (Option-cases (load_index name d'')) [
      | inl g ↦ absurd (ground (arith, e, f, g))
      | inr (i, g) ↦ ground (arith, e, f, g)
    ]
  ]
]

get_index-loads :
    (stack name : Bytes) (d d' : Disk) (j : Bytes)
    → get_index stack name d ≡ some (some j, d')
    → load_index name d' ≡ some (some j)
unfolding get_index
get_index-loads stack name d d' j h = elim (Option-cases (load_index name d)) [
  | inl e ↦ absurd (ground (arith, e))
  | inr (o, e) ↦ elim (Option-cases o) [
    | inl f ↦ force_index-loads stack name d d' j (ground (arith, e, f))
    | inr (i, f) ↦ ground (arith, e, f)
  ]
]

-- The frames that were counted are those of an index on the disk that is left.
pub mlv_get_frame_count-loads :
    (stack name : Bytes) (d d' : Disk) (n : ℕ)
    → mlv_get_frame_count stack name d ≡ some (n, d')
    → 0 < n
    → (j : Bytes) × (load_index name d' ≡ some (some j)) × (count_vidf (index_xrefs j) ≡ n)
unfolding mlv_get_frame_count
mlv_get_frame_count-loads stack name d d' n h pos = elim (Option-cases (get_index stack name d)) [
  | inl e ↦ absurd (ground (arith, e))
  | inr ((none, d1), e) ↦ absurd (ground (arith, e))
  | inr ((some i, d1), e) ↦ elim (Bool-cases (count_vidf (index_xrefs i) == 0)) [
    | inl z ↦ elim (Option-cases (force_index stack name d1)) [
      | inl f ↦ absurd (ground (arith, e, z, f))
      | inr ((none, d2), f) ↦ absurd (ground (arith, e, z, f))
      | inr ((some j, d2), f) ↦
          let p = force_index-loads stack name d1 d2 j f in
          (j, ground (arith, e, z, f, p), ground (arith, e, z, f))
    ]
    | inr z ↦
        let p = get_index-loads stack name d d1 i e in
        (i, ground (arith, e, z, p), ground (arith, e, z))
  ]
]

-- With an index on the disk, the headers are those that the search over its entries leaves.
mlv_get_frame_headers-search :
    (stack stack' name : Bytes) (index : ℕ) (d : Disk) (chunks : List Bytes) (j : Bytes)
    → load_chunks name d ≡ some chunks
    → load_index name d ≡ some (some j)
    → All (InChunks chunks) (index_xrefs j)
    → (s : SearchState) × (s ≡ search_all chunks index (index_xrefs j) (start_search stack'))
      × (mlv_get_frame_headers stack stack' name index d
          ≡ some (s.found && s.rawi_found, s.headers, d))
unfolding mlv_get_frame_headers get_index
mlv_get_frame_headers-search stack stack' name index d chunks j c l inside = (
  search_all chunks index (index_xrefs j) (start_search stack'),
  refl,
  rw
      (
        c,
        mlv_get_frame_headers,
        l,
        get_index,
        search-search_all chunks index (index_xrefs j) (start_search stack') inside,
      )
      refl,
)

-- Once `mlv_get_frame_count` has counted some frames, and while the chunks can be opened and the
-- entries of the index on the disk name no others, a call of `mlv_get_frame_headers` for any number below the count leaves the disk as it is, and its
-- headers have the chunk and the position of the entry that is the video frame of that number in
-- the index on the disk. It succeeds if and only if a RAWI block that can be read whole stands
-- before that entry in the index.
pub mlv_get_frame_headers-counted :
    (stack stack' name : Bytes) (d d' : Disk) (n index : ℕ) (chunks : List Bytes)
    → mlv_get_frame_count stack name d ≡ some (n, d')
    → index < n
    → load_chunks name d' ≡ some chunks
    → ((j : Bytes) → load_index name d' ≡ some (some j) → All (InChunks chunks) (index_xrefs j))
    → (j : Bytes) × (load_index name d' ≡ some (some j))
      × (x : Xref) × (vidf_at index (index_xrefs j) ≡ some x)
      × (h : FrameHeaders) × (mlv_get_frame_headers stack stack' name index d'
          ≡ some (rawi_before chunks index (index_xrefs j), h, d'))
      × (h.file_number ≡ x.file_number)
      × (h.position ≡ x.frame_offset)
mlv_get_frame_headers-counted stack stack' name d d' n index chunks counted below opened inside =
    let (j, loads, count) = mlv_get_frame_count-loads stack name d d' n counted (omega arith) in
    let xs = index_xrefs j in
    let (x, at) = vidf_at-count_vidf index xs (omega arith) in
    let (s, e, result) =
      mlv_get_frame_headers-search stack stack' name index d' chunks j opened loads
        (inside j loads) in
    let s0 = start_search stack' in
    let hit : FoundAt x s = rw e (search_hit chunks index index xs s0 x refl (omega arith) at) in
    let seen : s.rawi_found ≡ rawi_before chunks index xs =
      rw e (search_rawi chunks index index xs s0 x refl (omega arith) at)
      ∙ or_false (rawi_before chunks index xs) in
    let ok : s.found && s.rawi_found ≡ rawi_before chunks index xs = rw (hit.0, seen) refl in
    (j, loads, x, at, s.headers, rw (result, ok) refl, hit.1, hit.2)

-- After that count, with the chunks there and no others in the entries of the index on the disk, a call for any other number fails and leaves the disk
-- as it is.
pub mlv_get_frame_headers_beyond :
    (stack stack' name : Bytes) (d d' : Disk) (n index : ℕ) (chunks : List Bytes)
    → mlv_get_frame_count stack name d ≡ some (n, d')
    → 0 < n
    → n ≤ index
    → load_chunks name d' ≡ some chunks
    → ((j : Bytes) → load_index name d' ≡ some (some j) → All (InChunks chunks) (index_xrefs j))
    → (h : FrameHeaders) × (mlv_get_frame_headers stack stack' name index d' ≡ some (false, h, d'))
mlv_get_frame_headers_beyond stack stack' name d d' n index chunks counted some_frames above opened
      inside =
    let (j, loads, count) = mlv_get_frame_count-loads stack name d d' n counted some_frames in
    let xs = index_xrefs j in
    let at : vidf_at index xs ≡ none = vidf_at_beyond index xs (omega arith) in
    let (s, e, result) =
      mlv_get_frame_headers-search stack stack' name index d' chunks j opened loads
        (inside j loads) in
    let s0 = start_search stack' in
    let miss : s.found ≡ false =
      rw e (search_miss chunks index index xs s0 refl (omega arith) at) in
    let ok : s.found && s.rawi_found ≡ false = rw miss refl in (s.headers, rw (result, ok) refl)
