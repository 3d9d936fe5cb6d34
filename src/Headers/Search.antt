-- ===== src/Headers/Search.antt =====
-- Which entry of the index the search of mlvfs/main.c stops at.
use mlvfs.Base.{
  ℕ, zero, suc, ◌+◌, Bool, All, length, get_elem?-get_or, ◌≤◌, ◌<◌, ◌≡◌, refl, ◌∙◌, get_or, inl,
  inr, true, false, Option, none, some, List, [], ◌∷◌, ◌==◌, if◌then◌else◌, Bytes, arith,
  Bool-cases, Option-cases, read_at,
}
use mlvfs.Index.Block.{mlv_frame_vidf, mlv_frame_audf}
use mlvfs.Index.Encode.{Xref}
use mlvfs.Index.Store.{count_vidf}
use mlvfs.Headers.{SearchState, search_vidf, search_other, search_entry, search}

-- The `k`-th video frame of the index.
abbrev pub vidf_at : ℕ → List Xref → Option Xref
vidf_at k [] = none
vidf_at zero (x ∷ xs) = if x.frame_type == mlv_frame_vidf then some x else vidf_at zero xs
vidf_at (suc k) (x ∷ xs) =
    if x.frame_type == mlv_frame_vidf then vidf_at k xs else vidf_at (suc k) xs

pub vidf_at-count_vidf :
    (k : ℕ) (xs : List Xref) → k < count_vidf xs → (x : Xref) × (vidf_at k xs ≡ some x)
unfolding count_vidf
vidf_at-count_vidf k [] h = absurd (omega arith)
vidf_at-count_vidf zero (x ∷ xs) h = elim (Bool-cases (x.frame_type == mlv_frame_vidf)) [
  | inl e ↦ (x, rw e refl)
  | inr e ↦ rw e (vidf_at-count_vidf zero xs (ground arith))
]
vidf_at-count_vidf (suc k) (x ∷ xs) h = elim (Bool-cases (x.frame_type == mlv_frame_vidf)) [
  | inl e ↦ rw e (vidf_at-count_vidf k xs (ground arith))
  | inr e ↦ rw e (vidf_at-count_vidf (suc k) xs (ground arith))
]

-- The search where every chunk is there.
unfoldable pub search_all : List Bytes → ℕ → List Xref → SearchState → SearchState
search_all chunks index [] s = s
search_all chunks index (x ∷ xs) s =
    let rest =
      search_all chunks index xs (search_entry (get_or chunks x.file_number []) index x s) in
    if s.found then s else rest

-- The entry names a chunk that is there.
abbrev pub InChunks : List Bytes → Xref → Type 0
InChunks chunks x = x.file_number < length chunks

if-some :
    (b : Bool) (x y : SearchState) → (if b then some x else some y) ≡ some (if b then x else y)
if-some true x y = refl
if-some false x y = refl

pub search-search_all :
    (chunks : List Bytes) (index : ℕ) (xs : List Xref) (s : SearchState)
    → All (InChunks chunks) xs
    → search chunks index xs s ≡ some (search_all chunks index xs s)
unfolding search search_all
search-search_all chunks index [] s h = refl
search-search_all chunks index (x ∷ xs) s h =
    let there = get_elem?-get_or chunks x.file_number [] h.0 in
    let rest =
      search-search_all chunks index xs (search_entry (get_or chunks x.file_number []) index x s)
        h.1 in
    rw (there, rest) (if-some s.found s _)

pub search-found :
    (chunks : List Bytes) (index : ℕ) (xs : List Xref) (s : SearchState)
    → s.found ≡ true
    → search_all chunks index xs s ≡ s
unfolding search_all
search-found chunks index [] s h = refl
search-found chunks index (x ∷ xs) s h = rw h refl

pub search-next :
    (chunks : List Bytes) (index : ℕ) (x : Xref) (xs : List Xref) (s : SearchState)
    → s.found ≡ false
    → search_all chunks index (x ∷ xs) s
      ≡ search_all chunks index xs (search_entry (get_or chunks x.file_number []) index x s)
unfolding search_all
search-next chunks index x xs s h = rw h refl

search_other-keeps :
    (file : Bytes) (x : Xref) (s : SearchState)
    → ((search_other file x s).found ≡ s.found)
      × ((search_other file x s).vidf_counter ≡ s.vidf_counter)
unfolding search_other
search_other-keeps file x s = elim (Option-cases (read_at file x.frame_offset 16)) [
  | inl e ↦ rw (e, search_other) (refl, refl)
  | inr (bs, e) ↦ rw (e, search_other) (refl, refl)
]

-- An entry that is no video frame ends nothing and counts nothing.
pub search_entry-other :
    (file : Bytes) (index : ℕ) (x : Xref) (s : SearchState)
    → (x.frame_type == mlv_frame_vidf) ≡ false
    → ((search_entry file index x s).found ≡ s.found)
      × ((search_entry file index x s).vidf_counter ≡ s.vidf_counter)
unfolding search_entry
search_entry-other file index x s h = elim (Bool-cases (x.frame_type == mlv_frame_audf)) [
  | inl e ↦ rw (h, e) (refl, refl)
  | inr e ↦ rw (h, e) (search_other-keeps file x s)
]

pub search_entry-vidf :
    (file : Bytes) (index : ℕ) (x : Xref) (s : SearchState)
    → (x.frame_type == mlv_frame_vidf) ≡ true
    → search_entry file index x s ≡ search_vidf index file x s
unfolding search_entry
search_entry-vidf file index x s h = rw h refl

pub search_vidf-hit :
    (index : ℕ) (file : Bytes) (x : Xref) (s : SearchState)
    → (index == s.vidf_counter) ≡ true
    → ((search_vidf index file x s).found ≡ true)
      × ((search_vidf index file x s).headers.file_number ≡ x.file_number)
      × ((search_vidf index file x s).headers.position ≡ x.frame_offset)
unfolding search_vidf
search_vidf-hit index file x s h = rw h (refl, refl, refl)

pub search_vidf-miss :
    (index : ℕ) (file : Bytes) (x : Xref) (s : SearchState)
    → (index == s.vidf_counter) ≡ false
    → ((search_vidf index file x s).found ≡ s.found)
      × ((search_vidf index file x s).vidf_counter ≡ s.vidf_counter + 1)
unfolding search_vidf
search_vidf-miss index file x s h = rw h (refl, refl)

-- What the search has found: the place of an entry.
abbrev pub FoundAt : Xref → SearchState → Type 0
FoundAt x s =
    (s.found ≡ true)
    × (s.headers.file_number ≡ x.file_number)
    × (s.headers.position ≡ x.frame_offset)

pub search_hit :
    (chunks : List Bytes) (index k : ℕ) (xs : List Xref) (s : SearchState) (x : Xref)
    → s.found ≡ false
    → index ≡ s.vidf_counter + k
    → vidf_at k xs ≡ some x
    → FoundAt x (search_all chunks index xs s)
search_hit chunks index k [] s x f c h = absurd (ground arith)
search_hit chunks index zero (y ∷ ys) s x f c h =
    let step = search-next chunks index y ys s f in
    elim (Bool-cases (y.frame_type == mlv_frame_vidf)) [
      | inl e ↦
          let t = search_entry-vidf (get_or chunks y.file_number []) index y s e in
          let hit = search_vidf-hit index (get_or chunks y.file_number []) y s (ground arith) in
          let same : y ≡ x = ground arith in
          let stop =
            search-found chunks index ys (search_vidf index (get_or chunks y.file_number []) y s)
              hit.0 in
          rw (step, t, stop, ← same) hit
      | inr e ↦
          let keep = search_entry-other (get_or chunks y.file_number []) index y s e in
          rw step (
            search_hit chunks index zero ys
              (search_entry (get_or chunks y.file_number []) index y s) x (keep.0 ∙ f)
              (omega (arith, keep.1)) (ground arith))
    ]
search_hit chunks index (suc k) (y ∷ ys) s x f c h =
    let step = search-next chunks index y ys s f in
    elim (Bool-cases (y.frame_type == mlv_frame_vidf)) [
      | inl e ↦
          let t = search_entry-vidf (get_or chunks y.file_number []) index y s e in
          let keep = search_vidf-miss index (get_or chunks y.file_number []) y s (ground arith) in
          rw (step, t)
            (search_hit chunks index k ys (search_vidf index (get_or chunks y.file_number []) y s) x
              (keep.0 ∙ f) (omega (arith, keep.1)) (ground arith))
      | inr e ↦
          let keep = search_entry-other (get_or chunks y.file_number []) index y s e in
          rw step (
            search_hit chunks index (suc k) ys
              (search_entry (get_or chunks y.file_number []) index y s) x (keep.0 ∙ f)
              (omega (arith, keep.1)) (ground arith))
    ]

-- With no such entry, the search ends without a frame.
pub search_miss :
    (chunks : List Bytes) (index k : ℕ) (xs : List Xref) (s : SearchState)
    → s.found ≡ false
    → index ≡ s.vidf_counter + k
    → vidf_at k xs ≡ none
    → (search_all chunks index xs s).found ≡ false
unfolding search_all
search_miss chunks index k [] s f c h = f
search_miss chunks index zero (y ∷ ys) s f c h =
    let step = search-next chunks index y ys s f in
    elim (Bool-cases (y.frame_type == mlv_frame_vidf)) [
      | inl e ↦ absurd (ground arith)
      | inr e ↦
          let keep = search_entry-other (get_or chunks y.file_number []) index y s e in
          rw step (
            search_miss chunks index zero ys
              (search_entry (get_or chunks y.file_number []) index y s) (keep.0 ∙ f)
              (omega (arith, keep.1)) (ground arith))
    ]
search_miss chunks index (suc k) (y ∷ ys) s f c h =
    let step = search-next chunks index y ys s f in
    elim (Bool-cases (y.frame_type == mlv_frame_vidf)) [
      | inl e ↦
          let t = search_entry-vidf (get_or chunks y.file_number []) index y s e in
          let keep = search_vidf-miss index (get_or chunks y.file_number []) y s (ground arith) in
          rw (step, t)
            (search_miss chunks index k ys (search_vidf index (get_or chunks y.file_number []) y s)
              (keep.0 ∙ f) (omega (arith, keep.1)) (ground arith))
      | inr e ↦
          let keep = search_entry-other (get_or chunks y.file_number []) index y s e in
          rw step (
            search_miss chunks index (suc k) ys
              (search_entry (get_or chunks y.file_number []) index y s) (keep.0 ∙ f)
              (omega (arith, keep.1)) (ground arith))
    ]

pub vidf_at_beyond : (k : ℕ) (xs : List Xref) → count_vidf xs ≤ k → vidf_at k xs ≡ none
unfolding count_vidf
vidf_at_beyond k [] h = refl
vidf_at_beyond zero (x ∷ xs) h = elim (Bool-cases (x.frame_type == mlv_frame_vidf)) [
  | inl e ↦ absurd (ground arith)
  | inr e ↦ rw e (vidf_at_beyond zero xs (ground arith))
]
vidf_at_beyond (suc k) (x ∷ xs) h = elim (Bool-cases (x.frame_type == mlv_frame_vidf)) [
  | inl e ↦ rw e (vidf_at_beyond k xs (ground arith))
  | inr e ↦ rw e (vidf_at_beyond (suc k) xs (ground arith))
]
