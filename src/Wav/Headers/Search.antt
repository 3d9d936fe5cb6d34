-- ===== src/Wav/Headers/Search.antt =====
-- When `wav_get_headers` of mlvfs/wav.c succeeds.
use mlvfs.Base.{
  or_assoc, or_true, or_false, ℕ, ◌≡◌, refl, ap, ◌∙◌, inl, inr, Bool, true, false, ◌||◌, none, some,
  List, [], ◌∷◌, get_or, Bytes, bytes_eq, arith, Bool-cases, read_at, slice, All,
}
use mlvfs.Index.Block.{mlv_hdr}
use mlvfs.Index.Scan.{overlay}
use mlvfs.Index.Encode.{Xref, index_xrefs}
use mlvfs.Index.Store.{Disk, load_chunks, load_index, get_index}
use mlvfs.Headers.Rawi.{mlv_hdr-overlay}
use mlvfs.Wav.Headers.{
  WavHeaders, WavSearch, wavi, all_found, take_file, take_wavi, take_rtci, take_idnt, wav_entry,
  wav_search, wav_get_headers,
}

-- The header of the block that an entry stands for can be read whole, and is `bs`.
abbrev pub Readable : List Bytes → Xref → Type 0
Readable chunks x =
    (bs : Bytes) × (read_at (get_or chunks x.file_number []) x.frame_offset 16 ≡ some bs)

abbrev pub is_wavi : List Bytes → Xref → Bool
is_wavi chunks x = elim (read_at (get_or chunks x.file_number []) x.frame_offset 16) [
  | none ↦ false
  | some bs ↦ bytes_eq (mlv_hdr bs).block_type wavi
]

abbrev pub any_wavi : List Bytes → List Xref → Bool
any_wavi chunks [] = false
any_wavi chunks (x ∷ xs) = any_wavi chunks xs || is_wavi chunks x

take_file-keeps :
    (file : Bytes) (position : ℕ) (s : WavSearch)
    → ((take_file file position s).found_wavi ≡ s.found_wavi)
      × ((take_file file position s).block ≡ s.block)
unfolding take_file
take_file-keeps file position s = (ground arith, ground arith)

take_wavi-found :
    (file : Bytes) (position : ℕ) (s : WavSearch)
    → (take_wavi file position s).found_wavi
      ≡ bytes_eq (mlv_hdr s.block).block_type wavi || s.found_wavi
unfolding take_wavi
take_wavi-found file position s = ground arith

take_others-found :
    (file : Bytes) (position : ℕ) (s : WavSearch)
    → (take_idnt file position (take_rtci file position s)).found_wavi ≡ s.found_wavi
unfolding take_idnt take_rtci
take_others-found file position s = ground arith

wav_entry-found :
    (chunks : List Bytes) (x : Xref) (s : WavSearch)
    → Readable chunks x
    → (wav_entry chunks x s).found_wavi ≡ is_wavi chunks x || s.found_wavi
unfolding wav_entry
wav_entry-found chunks x s (bs, e) =
    let file = get_or chunks x.file_number [] in
    let position = x.frame_offset in
    let s' : WavSearch = record s { block = overlay (slice file position 16) s.block } in
    let (same, block) = take_file-keeps file position s' in
    let t = take_file file position s' in
    let h : mlv_hdr t.block ≡ mlv_hdr bs =
      ap mlv_hdr block ∙ mlv_hdr-overlay file position bs s.block e in
    let hit : is_wavi chunks x ≡ bytes_eq (mlv_hdr bs).block_type wavi = rw (is_wavi, e) refl in
    take_others-found file position (take_wavi file position t)
    ∙ (take_wavi-found file position t ∙ rw (h, same, hit) refl)

wav_search-found :
    (chunks : List Bytes) (xs : List Xref) (s : WavSearch)
    → All (Readable chunks) xs
    → (wav_search chunks xs s).found_wavi ≡ any_wavi chunks xs || s.found_wavi
unfolding wav_search
wav_search-found chunks [] s h = refl
wav_search-found chunks (x ∷ xs) s h = elim (Bool-cases (all_found s)) [
  | inl e ↦
      let had : s.found_wavi ≡ true = ground (arith, e) in
      rw (wav_search, e, had, or_true (any_wavi chunks xs || is_wavi chunks x)) refl
  | inr e ↦
      let rest = wav_search-found chunks xs (wav_entry chunks x s) h.1 in
      rw (wav_search, e, rest, wav_entry-found chunks x s h.0)
        (or_assoc (any_wavi chunks xs) (is_wavi chunks x) s.found_wavi)
]

-- With an index on the disk, whose entries all stand for blocks that have a whole header in the chunks that can be
-- opened, the headers for the WAV file are found if and only if one of the blocks is a WAVI block.
-- The search leaves the disk as it is. Whether they are found does not depend on what the variables
-- held before; nothing is said of the headers themselves.
pub wav_get_headers_lem :
    (stack block : Bytes) (headers : WavHeaders) (name : Bytes) (d : Disk) (chunks : List Bytes)
    (j : Bytes)
    → load_chunks name d ≡ some chunks
    → load_index name d ≡ some (some j)
    → All (Readable chunks) (index_xrefs j)
    → (h : WavHeaders) × (wav_get_headers stack block headers name d
        ≡ some (any_wavi chunks (index_xrefs j), h, d))
unfolding wav_get_headers get_index
wav_get_headers_lem stack block headers name d chunks j c l readable =
    let s0 : WavSearch = record {
      headers = headers;
      found_file = false;
      found_wavi = false;
      found_rtci = false;
      found_idnt = false;
      block = block;
    } in
    let s = wav_search chunks (index_xrefs j) s0 in
    let e : s.found_wavi ≡ any_wavi chunks (index_xrefs j) =
      wav_search-found chunks (index_xrefs j) s0 readable
      ∙ or_false (any_wavi chunks (index_xrefs j)) in
    (s.headers, rw (c, wav_get_headers, l, get_index, e) refl)
