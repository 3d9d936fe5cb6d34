-- ===== src/Readdir/Frames.antt =====
-- The frames that `mlvfs_readdir` of mlvfs/main.c lists can be opened under their names.
use mlvfs.Base.{
  ℕ, zero, suc, ◌+◌, ◌<◌, ◌≡◌, refl, ap, sym, ◌∙◌, ◌⊎◌, inl, inr, Bool, true, false, none, some,
  List, [], ◌∷◌, ◌++◌, length, append_assoc, append-nil, if◌then◌else◌, Bytes, arith, Bool-cases,
  Option-cases, All, All-append,
}
use mlvfs.FrameNumber.{
  plus, dng_name, get_mlv_frame_number, get_mlv_frame_number-dng_name, six_digits,
}
use mlvfs.Index.Encode.{Xref, index_xrefs}
use mlvfs.Index.Store.{Disk, load_chunks, load_index, mlv_get_frame_count}
use mlvfs.Headers.{FrameHeaders, mlv_get_frame_headers}
use mlvfs.Headers.Search.{vidf_at, InChunks}
use mlvfs.Headers.Rawi.{rawi_before}
use mlvfs.Headers.Count.{mlv_get_frame_headers-counted}
use mlvfs.Wav.Headers.{has_audio}
use mlvfs.Paths.{
  SlreMatch, Options, path_append, strstr, hidden, is_mlv_file, is_virtual_name, mld, upper_mlv,
  lower_mlv, string_ends_with, mlvfs_resolve_path, mlvfs_resolve_virtual,
}
use mlvfs.Paths.Endings.{string_ends_with_lem}
use mlvfs.Paths.Names.{IsName, join, join-snoc, split_mlv}
use mlvfs.Paths.Resolve.{found, mlvfs_resolve_path_lem}
use mlvfs.Paths.Backing.{backing, mlvfs_resolve_virtual_lem}
use mlvfs.Readdir.{file_name, Folders, Stack, dots, frame_names, virtual_names, mlvfs_readdir}
use mlvfs.Readdir.Listing.{folder_names, split_mlv-append, mlvfs_readdir-mlv}

-- The name stands somewhere in the list.
abbrev pub Listed : Bytes → List Bytes → Type 0
Listed name names = (before : List Bytes) × (after : List Bytes) × (names ≡ before ++ name ∷ after)

Listed-behind : (name : Bytes) (xs ys : List Bytes) → Listed name ys → Listed name (xs ++ ys)
Listed-behind name xs ys (before, after, e) = (
  xs ++ before,
  after,
  ap (λ (z : List Bytes). xs ++ z) e ∙ sym (append_assoc xs before (name ∷ after)),
)

Listed-before : (name : Bytes) (xs ys : List Bytes) → Listed name xs → Listed name (xs ++ ys)
Listed-before name xs ys (before, after, e) =
    (before, after ++ ys, ap (◌++ ys) e ∙ append_assoc before (name ∷ after) ys)

-- The `i`-th of the frames stands among them.
frame_names-Listed :
    (base : Bytes) (k n i : ℕ) → i < n → Listed (dng_name base (k + i)) (frame_names base k n)
unfolding frame_names
frame_names-Listed base k zero i h = absurd (omega arith)
frame_names-Listed base k (suc n) zero h =
    let e : k + 0 ≡ k = omega arith in ([], frame_names base (k + 1) n, rw e refl)
frame_names-Listed base k (suc n) (suc i) h =
    let next : k + suc i ≡ k + 1 + i = omega arith in
    rw next (
      Listed-behind (dng_name base (k + 1 + i)) (dng_name base k ∷ []) (frame_names base (k + 1) n)
        (frame_names-Listed base (k + 1) n i (omega arith)))

virtual_names-Listed :
    (base : Bytes) (audio : Bool) (n i : ℕ) (rest : List Bytes)
    → i < n
    → Listed (dng_name base i) ((dots ++ virtual_names base audio n) ++ rest)
unfolding virtual_names
virtual_names-Listed base audio n i rest h =
    let name = dng_name base i in
    let first : 0 + i ≡ i = omega arith in
    let frames : Listed name (frame_names base 0 n) =
      rw (← first) (frame_names-Listed base 0 n i h) in
    Listed-before name (dots ++ virtual_names base audio n) rest (
      Listed-behind name dots (virtual_names base audio n) (
        Listed-behind name (if audio then (base ++ b'.' ∷ b'w' ∷ b'a' ∷ b'v' ∷ []) ∷ [] else []) _ (
          Listed-behind name ((base ++ b'.' ∷ b'l' ∷ b'o' ∷ b'g' ∷ []) ∷ []) _
            (Listed-before name (frame_names base 0 n) _ frames))))

pub split_mlv-snoc :
    (ns a b : List Bytes) (cs : List Bytes)
    → split_mlv ns ≡ some (a, b)
    → split_mlv (ns ++ cs) ≡ some (a, b ++ cs)
unfolding split_mlv
split_mlv-snoc [] a b cs e = absurd (ground arith)
split_mlv-snoc (n ∷ ns) a b cs e = elim (Bool-cases (is_mlv_file n)) [
  | inl m ↦
      let one : n ∷ [] ≡ a = ground (arith, m) in
      let rest : ns ≡ b = ground (arith, m) in rw (m, one, rest) refl
  | inr m ↦ elim (Option-cases (split_mlv ns)) [
    | inl f ↦ absurd (ground (arith, m, f))
    | inr ((c, d), f) ↦
        let more : n ∷ c ≡ a = ground (arith, m, f) in
        let rest : d ≡ b = ground (arith, m, f) in
        rw (m, split_mlv-snoc ns c d cs f, more, rest) refl
  ]
]

pub is_virtual_name-dng_name : (base : Bytes) (i : ℕ) → is_virtual_name (dng_name base i) ≡ true
unfolding is_virtual_name dng_name
is_virtual_name-dng_name base i =
    let dng : Bytes = b'.' ∷ b'd' ∷ b'n' ∷ b'g' ∷ [] in
    let start = (base ++ b'_' ∷ []) ++ six_digits i in
    let ends : string_ends_with (dng_name base i) dng ≡ true =
      (string_ends_with_lem (dng_name base i) dng (omega arith)).1
        (start, sym (append_assoc (base ++ b'_' ∷ []) (six_digits i) dng)) in
    ground (arith, ends)

-- A folder in front of the name.
dng_name-append :
    (start base : Bytes) (i : ℕ) → start ++ dng_name base i ≡ dng_name (start ++ base) i
unfolding dng_name
dng_name-append start base i =
    sym (append_assoc start (base ++ b'_' ∷ []) (six_digits i ++ b'.' ∷ b'd' ∷ b'n' ∷ b'g' ∷ []))
    ∙ ap (◌++ (six_digits i ++ b'.' ∷ b'd' ∷ b'n' ∷ b'g' ∷ []))
        (sym (append_assoc start base (b'_' ∷ [])))

join-snoc_dng_name :
    (mlv : List Bytes) (base : Bytes) (i : ℕ)
    → 0 < length mlv
    → b'/' ∷ join (mlv ++ dng_name base i ∷ []) ≡ dng_name (b'/' ∷ join mlv ++ b'/' ∷ base) i
join-snoc_dng_name mlv base i h =
    ap (◌∷◌ b'/') (join-snoc mlv (dng_name base i) h)
    ∙ (sym (append_assoc (b'/' ∷ join mlv) (b'/' ∷ []) (dng_name base i))
        ∙ (dng_name-append ((b'/' ∷ join mlv) ++ b'/' ∷ []) base i
            ∙ ap (λ (x : Bytes). dng_name x i) (append_assoc (b'/' ∷ join mlv) (b'/' ∷ []) base)))

split_mlv-pos : (ns a b : List Bytes) → split_mlv ns ≡ some (a, b) → 0 < length a
unfolding split_mlv
split_mlv-pos [] a b e = absurd (ground arith)
split_mlv-pos (n ∷ ns) a b e = elim (Bool-cases (is_mlv_file n)) [
  | inl m ↦ let one : n ∷ [] ≡ a = ground (arith, m) in omega (arith, ap length one)
  | inr m ↦ elim (Option-cases (split_mlv ns)) [
    | inl f ↦ absurd (ground (arith, m, f))
    | inr ((c, d), f) ↦ let more : n ∷ c ≡ a = ground (arith, m, f) in omega (arith, ap length more)
  ]
]

module _ (slre_match : SlreMatch) (options : Options) (folders : Folders) (stack : Stack)
    (scheme : options.name_scheme ≡ 0) where
  -- With the plain name scheme, take the path of an MLV file, made of names that hold no
  -- slash or backslash and where no slash with "._" occurs, whose frames can be counted and
  -- whose chunks can be opened after that and include all that the entries of the index on the
  -- disk name, and a number below the count and below a million.
  -- The listing of the path has a name for this frame. Where that name holds no slash or
  -- backslash, and no slash with "._" occurs in its path, the path of the frame is resolved
  -- to this MLV file and this name, is virtual, and gives the number of the frame; and the
  -- search for the headers of this number in this file leaves the disk as the count has left
  -- it, and finds the entry that is the video frame of that number in the index. The search
  -- succeeds if and only if a RAWI block that can be read whole stands before that entry.
  pub mlvfs_readdir-frames :
      (ns mlv : List Bytes) (start : Bytes) (d d' : Disk) (n i : ℕ) (chunks : List Bytes)
      → All IsName ns
      → strstr (b'/' ∷ join ns) hidden ≡ false
      → split_mlv ns ≡ some (mlv, [])
      → (path_append options.mlv_path (join mlv) ≡ start ++ upper_mlv)
        ⊎ (path_append options.mlv_path (join mlv) ≡ start ++ lower_mlv)
      → mlv_get_frame_count stack.main_header (path_append options.mlv_path (join mlv)) d
        ≡ some (n, d')
      → load_chunks (path_append options.mlv_path (join mlv)) d' ≡ some chunks
      → ((j : Bytes)
          → load_index (path_append options.mlv_path (join mlv)) d' ≡ some (some j)
          → All (InChunks chunks) (index_xrefs j))
      → i < n
      → i < 1000000
      → IsName (dng_name (file_name start) i)
      → strstr (b'/' ∷ join (ns ++ dng_name (file_name start) i ∷ [])) hidden ≡ false
      → ((names : List Bytes) × (mlvfs_readdir slre_match options folders stack (b'/' ∷ join ns) d
            ≡ some (plus 0, names, d'))
          × Listed (dng_name (file_name start) i) names)
        × (mlvfs_resolve_path slre_match options
              (b'/' ∷ join (ns ++ dng_name (file_name start) i ∷ []))
            ≡ some (path_append options.mlv_path (join mlv), dng_name (file_name start) i))
        × (mlvfs_resolve_virtual slre_match options
              (b'/' ∷ join (ns ++ dng_name (file_name start) i ∷ []))
            ≡ none)
        × (get_mlv_frame_number (b'/' ∷ join (ns ++ dng_name (file_name start) i ∷ [])) ≡ plus i)
        × ((j : Bytes) × (load_index (path_append options.mlv_path (join mlv)) d' ≡ some (some j))
            × (x : Xref) × (vidf_at i (index_xrefs j) ≡ some x)
            × (h : FrameHeaders) × (mlv_get_frame_headers stack.main_header stack.block
                  (path_append options.mlv_path (join mlv))
                  i
                  d'
                ≡ some (rawi_before chunks i (index_xrefs j), h, d'))
            × (h.file_number ≡ x.file_number)
            × (h.position ≡ x.frame_offset))
  unfolding found backing
  mlvfs_readdir-frames ns mlv start d d' n i chunks names shown split ending counted opened inside
        below small name_lem shown' =
      let file = path_append options.mlv_path (join mlv) in
      let base = file_name start in
      let name = dng_name base i in
      let more : All IsName (ns ++ name ∷ []) =
        All-append IsName ns (name ∷ []) names (name_lem, tt) in
      let split' = split_mlv-snoc ns mlv [] (name ∷ []) split in
      let whole : ns ≡ mlv = split_mlv-append ns mlv [] split ∙ append-nil mlv in
      let pos : 0 < length ns = omega (arith, split_mlv-pos ns mlv [] split, ap length whole) in
      (
        (
          (dots ++ virtual_names base (has_audio file d) n)
              ++ folder_names (folders.opendir (start ++ mld) d'),
          mlvfs_readdir-mlv slre_match options folders stack scheme ns mlv start d d' n names shown
              split ending counted,
          virtual_names-Listed base (has_audio file d) n i
              (folder_names (folders.opendir (start ++ mld) d')) below,
        ),
        mlvfs_resolve_path_lem slre_match options (ns ++ name ∷ []) scheme more shown'
            ∙ rw (split', found) refl,
        mlvfs_resolve_virtual_lem slre_match options (ns ++ name ∷ []) scheme more shown'
            ∙ rw (split', backing, is_virtual_name-dng_name base i) refl,
        ap get_mlv_frame_number (join-snoc_dng_name ns base i pos)
            ∙ get_mlv_frame_number-dng_name (b'/' ∷ join ns ++ b'/' ∷ base) i small,
        mlv_get_frame_headers-counted stack.main_header stack.block file d d' n i chunks counted
            below opened inside,
      )
