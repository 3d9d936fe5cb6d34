-- ===== src/Readdir/Listing.antt =====
-- What `mlvfs_readdir` of mlvfs/main.c lists for an MLV file.
use mlvfs.Base.{
  or_true, ℕ, zero, suc, ◌+◌, ◌-◌, ◌≤◌, ◌<◌, ◌≡◌, refl, ap, sym, ◌∙◌, ◌⊎◌, inl, inr, true, false,
  ◌||◌, Option, none, some, List, [], ◌∷◌, ◌++◌, length, take, drop, take-append, append-nil, ◌==◌,
  if◌then◌else◌, Bytes, bytes_eq, eq_of_bytes_eq, arith, Bool-cases, Option-cases, All,
}
use mlvfs.FrameNumber.{plus, last_dot}
use mlvfs.Index.Store.{Disk, mlv_get_frame_count}
use mlvfs.Wav.Headers.{has_audio}
use mlvfs.Paths.{
  SlreMatch, Options, path_append, strstr, hidden, is_mlv_file, mld_name, mld, upper_mlv, lower_mlv,
  string_ends_with,
}
use mlvfs.Paths.Endings.{Lacks, is_mlv_file-name, is_mlv_file-path_append}
use mlvfs.Paths.Names.{IsName, join, join-IsPlain, split_mlv}
use mlvfs.Paths.Resolve.{found, mlvfs_resolve_path_lem}
use mlvfs.Paths.Backing.{last_dot-append}
use mlvfs.Handlers.Sandbox.Redirect.{split_mlv-mlv}
use mlvfs.Readdir.{
  find_last_separator, file_name, Dirent, Folders, Stack, dot_idx, dots, virtual_names,
  get_mlv_basename, list_child, list_children, list_real, list_mlv, mlvfs_readdir,
}

find_last_separator-append :
    (s e : Bytes) → Lacks b'/' e → find_last_separator (s ++ e) ≡ find_last_separator s
unfolding find_last_separator
find_last_separator-append [] [] h = refl
find_last_separator-append [] (b ∷ e) h = rw (find_last_separator-append [] e h.1, h.0) refl
find_last_separator-append (b ∷ s) e h = rw (find_last_separator-append s e h) refl

find_last_separator-lt : (s : Bytes) (i : ℕ) → find_last_separator s ≡ some i → i < length s
unfolding find_last_separator
find_last_separator-lt [] i h = absurd (ground arith)
find_last_separator-lt (b ∷ s) i h = elim (Option-cases (find_last_separator s)) [
  | inl e ↦ ground (arith, e)
  | inr (j, e) ↦ ground (arith, e, find_last_separator-lt s j e)
]

drop-append_le : (n : ℕ) (s e : Bytes) → n ≤ length s → drop n (s ++ e) ≡ drop n s ++ e
drop-append_le zero s e h = refl
drop-append_le (suc n) [] e h = absurd (omega arith)
drop-append_le (suc n) (b ∷ s) e h = drop-append_le n s e (omega arith)

-- The end of a path is the end of its name.
file_name-append : (s e : Bytes) → Lacks b'/' e → file_name (s ++ e) ≡ file_name s ++ e
unfolding file_name
file_name-append s e h = elim (Option-cases (find_last_separator s)) [
  | inl f ↦ rw (file_name, find_last_separator-append s e h, f) refl
  | inr (i, f) ↦
      let lt = find_last_separator-lt s i f in
      rw (file_name, find_last_separator-append s e h, f) (drop-append_le (i + 1) s e (omega arith))
]

other_ending :
    (name e : Bytes)
    → string_ends_with name e ≡ true
    → length e ≡ 4
    → bytes_eq e mld ≡ false
    → string_ends_with name mld ≡ false
unfolding string_ends_with
other_ending name e h four ne =
    let t = drop (length name - 4) name in
    let tail : drop (length name - length e) name ≡ e =
      ground (arith, four, eq_of_bytes_eq (drop (length name - length e) name) e) in
    let same : t ≡ e = ap (λ (n : ℕ). drop (length name - n) name) (sym four) ∙ tail in
    let f : bytes_eq t mld ≡ false = rw same ne in ground (arith, f)

-- No name ends both in ".MLV" or ".mlv" and in ".MLD".
is_mlv_file-mld : (name : Bytes) → is_mlv_file name ≡ true → string_ends_with name mld ≡ false
unfolding is_mlv_file bytes_eq
is_mlv_file-mld name h = elim (Bool-cases (string_ends_with name upper_mlv)) [
  | inl e ↦ other_ending name upper_mlv e refl refl
  | inr e ↦ other_ending name lower_mlv (ground (arith, e)) refl refl
]

-- The children of a ".MLD" folder that are listed.
unfoldable pub shown_names : List Dirent → List Bytes
shown_names [] = []
shown_names (child ∷ children) =
    let ignored =
      string_ends_with child.d_name mld
      || (string_ends_with child.d_name dot_idx
          || (bytes_eq child.d_name (b'.' ∷ b'.' ∷ []) || bytes_eq child.d_name (b'.' ∷ []))) in
    if ignored then shown_names children else child.d_name ∷ shown_names children

-- Those of a folder that may not be there.
unfoldable pub folder_names : Option (List Dirent) → List Bytes
folder_names none = []
folder_names (some children) = shown_names children

mld_name-ending :
    (name start e : Bytes) → name ≡ start ++ b'.' ∷ e → Lacks b'.' e → mld_name name ≡ start ++ mld
unfolding mld_name
mld_name-ending name start e f dot =
    let at : last_dot name ≡ some (length start) = ap last_dot f ∙ last_dot-append start e dot in
    let head : take (length start) name ≡ start =
      ap (take (length start)) f ∙ take-append start (b'.' ∷ e) in
    rw (mld_name, at, head) refl

pub split_mlv-append : (ns a b : List Bytes) → split_mlv ns ≡ some (a, b) → ns ≡ a ++ b
unfolding split_mlv
split_mlv-append [] a b e = absurd (ground arith)
split_mlv-append (n ∷ ns) a b e = elim (Bool-cases (is_mlv_file n)) [
  | inl m ↦
      let one : n ∷ [] ≡ a = ground (arith, m) in
      let rest : ns ≡ b = ground (arith, m) in rw (← one, ← rest) refl
  | inr m ↦ elim (Option-cases (split_mlv ns)) [
    | inl f ↦ absurd (ground (arith, m, f))
    | inr ((c, d), f) ↦
        let more : n ∷ c ≡ a = ground (arith, m, f) in
        let rest : d ≡ b = ground (arith, m, f) in
        rw (← more, ← rest) (ap (◌∷◌ n) (split_mlv-append ns c d f))
  ]
]

module _ (slre_match : SlreMatch) (options : Options) (folders : Folders) (stack : Stack)
    (scheme : options.name_scheme ≡ 0) where
  plain : (options.name_scheme == 0) ≡ true
  plain = ground (arith, scheme)

  not_one : (options.name_scheme == 1) ≡ false
  not_one = ground (arith, scheme)

  list_children-shown :
      (real_path : Bytes) (children : List Dirent) (d : Disk)
      → list_children slre_match options folders stack real_path true children d
        ≡ some (shown_names children, d)
  unfolding list_children list_child shown_names
  list_children-shown real_path [] d = refl
  list_children-shown real_path (child ∷ children) d =
      let ignored =
        string_ends_with child.d_name mld
        || (string_ends_with child.d_name dot_idx
            || (bytes_eq child.d_name (b'.' ∷ b'.' ∷ []) || bytes_eq child.d_name (b'.' ∷ []))) in
      let rest = list_children-shown real_path children d in
      elim (Bool-cases ignored) [
        | inl e ↦ rw (list_children, list_child, e, rest) refl
        | inr e ↦
            rw (list_children, list_child, e, plain, rest, or_true (is_mlv_file child.d_name)) refl
      ]

  -- The folder beside an MLV file.
  list_real-mld :
      (real_path : Bytes) (names : List Bytes) (d : Disk)
      → list_real slre_match options folders stack (some real_path) true (plus 0) names d
        ≡ some (plus 0, names ++ folder_names (folders.opendir real_path d), d)
  unfolding list_real folder_names
  list_real-mld real_path names d = elim (Option-cases (folders.opendir real_path d)) [
    | inl e ↦ rw (list_real, e, folder_names, append-nil names) refl
    | inr (children, e) ↦
        rw (list_real, e, folder_names, list_children-shown real_path children d) refl
  ]

  get_mlv_basename-ending :
      (name start e : Bytes) (d : Disk)
      → is_mlv_file name ≡ true
      → name ≡ start ++ b'.' ∷ e
      → Lacks b'/' e
      → Lacks b'.' e
      → get_mlv_basename slre_match options folders stack name d ≡ some (some (file_name start), d)
  unfolding get_mlv_basename
  get_mlv_basename-ending name start e d h f slash dot =
      let whole : file_name name ≡ file_name start ++ b'.' ∷ e =
        ap file_name f ∙ file_name-append start (b'.' ∷ e) (refl, slash) in
      let at : last_dot (file_name name) ≡ some (length (file_name start)) =
        ap last_dot whole ∙ last_dot-append (file_name start) e dot in
      let head : take (length (file_name start)) (file_name name) ≡ file_name start =
        ap (take (length (file_name start))) whole ∙ take-append (file_name start) (b'.' ∷ e) in
      rw (get_mlv_basename, h, at, not_one, head) refl

  -- The name and the folder beside it, for each of the two endings.
  get_mlv_basename-mlv :
      (name start : Bytes) (d : Disk)
      → is_mlv_file name ≡ true
      → (name ≡ start ++ upper_mlv) ⊎ (name ≡ start ++ lower_mlv)
      → (mld_name name ≡ start ++ mld)
        × (get_mlv_basename slre_match options folders stack name d
            ≡ some (some (file_name start), d))
  get_mlv_basename-mlv name start d h (inl f) = (
    mld_name-ending name start (b'M' ∷ b'L' ∷ b'V' ∷ []) f (refl, (refl, (refl, tt))),
    get_mlv_basename-ending name start (b'M' ∷ b'L' ∷ b'V' ∷ []) d h f (refl, (refl, (refl, tt)))
        (refl, (refl, (refl, tt))),
  )
  get_mlv_basename-mlv name start d h (inr f) = (
    mld_name-ending name start (b'm' ∷ b'l' ∷ b'v' ∷ []) f (refl, (refl, (refl, tt))),
    get_mlv_basename-ending name start (b'm' ∷ b'l' ∷ b'v' ∷ []) d h f (refl, (refl, (refl, tt)))
        (refl, (refl, (refl, tt))),
  )

  -- With the plain name scheme, the path of an MLV file, made of names that hold no slash or
  -- backslash, and where no slash with "._" occurs, lists the following once its frames are counted: the two
  -- dots, a ".wav" file if it has audio, a ".log" file, a DNG file for each frame that was counted, and
  -- the preview; and then the children of the ".MLD" folder beside it, if it can be opened, but for the
  -- dots and those that end in ".MLD" or ".IDX". The first carry the name of the MLV file without its
  -- ending. The listing succeeds, and leaves the disk as the count does.
  pub mlvfs_readdir-mlv :
      (ns mlv : List Bytes) (start : Bytes) (d d' : Disk) (n : ℕ)
      → All IsName ns
      → strstr (b'/' ∷ join ns) hidden ≡ false
      → split_mlv ns ≡ some (mlv, [])
      → (path_append options.mlv_path (join mlv) ≡ start ++ upper_mlv)
        ⊎ (path_append options.mlv_path (join mlv) ≡ start ++ lower_mlv)
      → mlv_get_frame_count stack.main_header (path_append options.mlv_path (join mlv)) d
        ≡ some (n, d')
      → mlvfs_readdir slre_match options folders stack (b'/' ∷ join ns) d
        ≡ some (
          plus 0,
          (dots
                ++ virtual_names
                    (file_name start)
                    (has_audio (path_append options.mlv_path (join mlv)) d)
                    n)
              ++ folder_names (folders.opendir (start ++ mld) d'),
          d',
        )
  unfolding mlvfs_readdir list_mlv found
  mlvfs_readdir-mlv ns mlv start d d' n names shown split ending counted =
      let file = path_append options.mlv_path (join mlv) in
      let (plain_names, ends) = split_mlv-mlv [] ns mlv [] split tt names in
      let is_mlv : is_mlv_file file ≡ true =
        is_mlv_file-path_append options.mlv_path (join mlv) (join-IsPlain mlv plain_names) ∙ ends in
      let whole : ns ≡ mlv = split_mlv-append ns mlv [] split ∙ append-nil mlv in
      let no_mld : string_ends_with (b'/' ∷ join ns) mld ≡ false =
        is_mlv_file-mld (b'/' ∷ join ns) (
          is_mlv_file-name b'/' [] (join ns) (inl refl)
          ∙ (ap (λ (x : List Bytes). is_mlv_file (join x)) whole ∙ ends)) in
      let (beside, base) = get_mlv_basename-mlv file start d is_mlv ending in
      let resolved = mlvfs_resolve_path_lem slre_match options ns scheme names shown in
      let virtual = dots ++ virtual_names (file_name start) (has_audio file d) n in
      rw (mlvfs_readdir, no_mld, resolved, split, found, list_mlv, base, counted, beside)
        (list_real-mld (start ++ mld) virtual d')
