-- ===== src/Paths.antt =====
-- The paths of mlvfs/main.c: the string helpers, `mlvfs_resolve_path`, which finds the MLV file that
-- a path is inside, and `mlvfs_resolve_virtual`, which finds the file that backs a path. Separators
-- and the comparison of names are those of a POSIX system.
pub mod Endings
pub mod Names
pub mod Resolve
pub mod Backing
mod Tests
use mlvfs.Base.{
  ℕ, zero, suc, ◌+◌, ◌-◌, Bool, true, false, not, ◌&&◌, ◌||◌, Option, none, some, List, [], ◌∷◌,
  ◌++◌, length, take, drop, ltb, ◌==◌, if◌then◌else◌, Bytes, bytes_eq,
}
use mlvfs.FrameNumber.{last_dot}

-- The options of `struct mlvfs` that the paths depend on.
pub record Options : Type 0 where
  pub mlv_path : Bytes
  pub name_scheme : ℕ

abbrev pub dir_sep_char : ℕ
dir_sep_char = b'/'

abbrev pub backslash : ℕ
backslash = 92

unfoldable pub string_ends_with : Bytes → Bytes → Bool
string_ends_with source ending =
    if length source == 0
    then false
    else if ltb (length source) (length ending)
    then false
    else bytes_eq (drop (length source - length ending) source) ending

-- `path2[0]`, which is 0 for an empty string.
abbrev pub first_char : Bytes → ℕ
first_char [] = 0
first_char (b ∷ bs) = b

-- These allocate; memory is at hand.
abbrev pub concat_string : Bytes → Bytes → Bytes
concat_string str1 str2 = str1 ++ str2

abbrev pub concat_string3 : Bytes → Bytes → Bytes → Bytes
concat_string3 str1 str2 str3 = str1 ++ (str2 ++ str3)

unfoldable pub path_append : Bytes → Bytes → Bytes
path_append path1 path2 =
    let separated = first_char path2 == b'/' || first_char path2 == backslash in
    if string_ends_with path1 (b'/' ∷ []) || string_ends_with path1 (backslash ∷ [])
    then if separated then concat_string path1 (drop 1 path2) else concat_string path1 path2
    else if separated
    then concat_string path1 path2
    else concat_string3 path1 (dir_sep_char ∷ []) path2

-- The loop from the first separator to the next, over the characters.
unfoldable pub path_slashfix : Bytes → Bytes
path_slashfix [] = []
path_slashfix (b ∷ bs) = (if b == b'/' then dir_sep_char else b) ∷ path_slashfix bs

-- `strchr(path, '/')`, as an index.
unfoldable pub find_first_separator : Bytes → Option ℕ
find_first_separator [] = none
find_first_separator (b ∷ bs) =
    if b == b'/'
    then some 0
    else elim (find_first_separator bs) [ none ↦ none | some i ↦ some (suc i) ]

-- `strncmp(path, prefix, strlen(prefix)) == 0`.
unfoldable pub starts_with : Bytes → Bytes → Bool
starts_with bs [] = true
starts_with [] (p ∷ ps) = false
starts_with (b ∷ bs) (p ∷ ps) = b == p && starts_with bs ps

-- `strstr(path, part) != NULL`.
unfoldable pub strstr : Bytes → Bytes → Bool
strstr [] part = starts_with [] part
strstr (b ∷ bs) part = starts_with (b ∷ bs) part || strstr bs part

abbrev pub hidden : Bytes
hidden = b'/' ∷ b'.' ∷ b'_' ∷ []

abbrev pub upper_mlv : Bytes
upper_mlv = b'.' ∷ b'M' ∷ b'L' ∷ b'V' ∷ []

abbrev pub lower_mlv : Bytes
lower_mlv = b'.' ∷ b'm' ∷ b'l' ∷ b'v' ∷ []

abbrev pub mld : Bytes
mld = b'.' ∷ b'M' ∷ b'L' ∷ b'D' ∷ []

unfoldable pub is_mlv_file : Bytes → Bool
is_mlv_file filename = string_ends_with filename upper_mlv || string_ends_with filename lower_mlv

-- A capture of `slre_match`: the string from its start, and its length.
pub record SlreCap : Type 0 where
  pub ptr : Bytes
  pub len : ℕ

unfoldable pub get_capture : SlreCap → Bytes
get_capture cap = take cap.len cap.ptr

-- `slre_match` with the pattern of a name: the two captures of a match, which are both there.
abbrev pub SlreMatch : Type 0
SlreMatch = Bytes → Option (SlreCap × SlreCap)

-- `while (find_first_separator(current_token) == current_token) current_token++`.
unfoldable pub skip_separators : Bytes → Bytes
skip_separators [] = []
skip_separators (b ∷ bs) = let rest = skip_separators bs in if b == b'/' then rest else b ∷ bs

-- What virtual files in the root of an MLV file end in.
unfoldable pub is_virtual_name : Bytes → Bool
is_virtual_name name =
    string_ends_with name (b'.' ∷ b'd' ∷ b'n' ∷ b'g' ∷ [])
    || string_ends_with name (b'.' ∷ b'w' ∷ b'a' ∷ b'v' ∷ [])
    || string_ends_with name (b'.' ∷ b'g' ∷ b'i' ∷ b'f' ∷ [])
    || string_ends_with name (b'.' ∷ b'l' ∷ b'o' ∷ b'g' ∷ [])

-- `strcpy(strrchr(name, '.'), ".MLD")`.
unfoldable pub mld_name : Bytes → Bytes
mld_name name = elim (last_dot name) [ none ↦ name | some dot ↦ take dot name ++ mld ]

module _ (slre_match : SlreMatch) (options : Options) where
  unfoldable pub get_mlv_name_from_basename : Bytes → Option Bytes
  get_mlv_name_from_basename path =
      if options.name_scheme == 1
      then elim (slre_match path) [
        | none ↦ none
        | some caps ↦ some (concat_string3 (get_capture caps.0) (b'.' ∷ []) (get_capture caps.1))
      ]
      else some path

  -- The check at the start of a round of `mlvfs_resolve_path`: the MLV file, if the current path
  -- is one.
  unfoldable pub check_path : Bytes → Option Bytes
  check_path current_path =
      let current = path_slashfix current_path in
      let real =
        if is_mlv_file (path_append options.mlv_path current)
        then some (path_append options.mlv_path current)
        else none in
      if not (options.name_scheme == 0)
      then elim (get_mlv_name_from_basename current) [
        | none ↦ real
        | some mlv_name ↦ some (path_append options.mlv_path mlv_name)
      ]
      else real

  -- The next current path and token.
  unfoldable pub take_token : Bytes → Bytes → Bytes × Bytes
  take_token current_path current_token =
      let start =
        if length current_path == 0 then current_path else current_path ++ (dir_sep_char ∷ []) in
      elim (find_first_separator current_token) [
        | none ↦ (start ++ current_token, [])
        | some token_end ↦
            (start ++ take token_end current_token, drop (token_end + 1) current_token)
      ]

  -- The `while (!done)`. The outer `none` is out of fuel.
  unfoldable pub resolve_loop : ℕ → Bytes → Bytes → Option (Option (Bytes × Bytes))
  resolve_loop zero current_path token = none
  resolve_loop (suc fuel) current_path token =
      let current_token = skip_separators token in
      let next = take_token current_path current_token in
      let rest = resolve_loop fuel next.0 next.1 in
      elim (check_path current_path) [
        | some mlv_file ↦ some (some (mlv_file, current_token))
        | none ↦ if length current_token == 0 then some none else rest
      ]

  -- The MLV file and the path inside it. Out of fuel does not happen.
  unfoldable pub mlvfs_resolve_path : Bytes → Option (Bytes × Bytes)
  mlvfs_resolve_path path =
      if strstr path hidden
      then none
      else elim (resolve_loop (suc (length path)) [] path) [ none ↦ none | some r ↦ r ]

  -- The name of the file on disk, or `none` for a virtual file.
  unfoldable pub mlvfs_resolve_virtual : Bytes → Option Bytes
  mlvfs_resolve_virtual path = elim (mlvfs_resolve_path path) [
    | none ↦ some (path_append options.mlv_path (path_slashfix path))
    | some (mlv_filename, path_in_mlv) ↦
        let is_in_mlv_root : Bool = elim (find_first_separator path_in_mlv) [
          | none ↦ true
          | some i ↦ false
        ] in
        if is_in_mlv_root && (not (strstr path hidden) && is_virtual_name path_in_mlv)
        then none
        else if length path_in_mlv == 0
        then some mlv_filename
        else some (path_append (mld_name mlv_filename) (path_slashfix path_in_mlv))
  ]
