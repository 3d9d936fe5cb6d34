-- ===== src/Readdir.antt =====
-- The directory listing of mlvfs/main.c: `get_mlv_basename` and `mlvfs_readdir`.
pub mod Listing
pub mod Frames
mod Tests
use mlvfs.Base.{
  ℕ, zero, suc, ◌+◌, Bool, true, false, not, ◌&&◌, ◌||◌, Option, none, some, List, [], ◌∷◌, ◌++◌,
  length, take, drop, ◌==◌, if◌then◌else◌, Bytes, bytes_eq,
}
use mlvfs.FrameNumber.{Number, plus, minus, last_dot, dng_name}
use mlvfs.Index.Store.{Disk, mlv_get_frame_count}
use mlvfs.Headers.{FrameHeaders, mlv_get_frame_headers}
use mlvfs.Wav.Headers.{has_audio}
use mlvfs.Paths.{
  SlreMatch, Options, string_ends_with, path_append, path_slashfix, upper_mlv, lower_mlv, mld,
  is_mlv_file, mld_name, mlvfs_resolve_path, mlvfs_resolve_virtual,
}

-- `strrchr(path, '/')`, as an index.
unfoldable pub find_last_separator : Bytes → Option ℕ
find_last_separator [] = none
find_last_separator (b ∷ bs) = elim (find_last_separator bs) [
  | some i ↦ some (suc i)
  | none ↦ if b == b'/' then some 0 else none
]

-- What stands behind the last separator.
unfoldable pub file_name : Bytes → Bytes
file_name path = elim (find_last_separator path) [ none ↦ path | some i ↦ drop (i + 1) path ]

-- `d_type` of a child: `DT_DIR`, `DT_UNKNOWN` or another.
pub data FileType : Type 0 where
  dt_dir : FileType
  dt_unknown : FileType
  dt_other : FileType

pub record Dirent : Type 0 where
  pub d_name : Bytes
  pub d_type : FileType

-- What the listing asks the system for: the children of a folder that can be opened, and whether
-- a path is a folder; and the text that `sprintf` makes of the date in a header.
pub record Folders : Type 0 where
  pub opendir : Bytes → Disk → Option (List Dirent)
  pub is_dir : Bytes → Disk → Bool
  pub date_text : FrameHeaders → Bytes

-- What the variables of `get_index` and `mlv_get_frame_headers` hold at first.
pub record Stack : Type 0 where
  pub main_header : Bytes
  pub block : Bytes

abbrev pub dot_idx : Bytes
dot_idx = b'.' ∷ b'I' ∷ b'D' ∷ b'X' ∷ []

abbrev pub dots : List Bytes
dots = (b'.' ∷ []) ∷ (b'.' ∷ b'.' ∷ []) ∷ []

-- The `for` over the frames from `i`, with `n` left.
unfoldable pub frame_names : Bytes → ℕ → ℕ → List Bytes
frame_names mlv_basename i zero = []
frame_names mlv_basename i (suc n) = dng_name mlv_basename i ∷ frame_names mlv_basename (i + 1) n

-- The files of an MLV file.
unfoldable pub virtual_names : Bytes → Bool → ℕ → List Bytes
virtual_names mlv_basename audio frame_count =
    (if audio then (mlv_basename ++ b'.' ∷ b'w' ∷ b'a' ∷ b'v' ∷ []) ∷ [] else [])
    ++ ((mlv_basename ++ b'.' ∷ b'l' ∷ b'o' ∷ b'g' ∷ [])
        ∷ (frame_names mlv_basename 0 frame_count
            ++ (b'_' ∷ b'P' ∷ b'R' ∷ b'E' ∷ b'V' ∷ b'I' ∷ b'E' ∷ b'W' ∷ b'.' ∷ b'g' ∷ b'i' ∷ b'f'
                ∷ [])
              ∷ []))

module _ (slre_match : SlreMatch) (options : Options) (folders : Folders) (stack : Stack) where
  -- The name and the disk. The outer `none` is out of fuel, which does not happen.
  unfoldable pub get_mlv_basename : Bytes → Disk → Option (Option Bytes × Disk)
  get_mlv_basename path d =
      let start = file_name path in
      let named : Option (Option Bytes × Disk) = elim (last_dot start) [
        | none ↦ some (none, d)
        | some dot ↦
            let plain = take dot start in
            let dated : Option (Option Bytes × Disk) =
              elim (mlv_get_frame_headers stack.main_header stack.block path 0 d) [
                | none ↦ none
                | some (false, h, d') ↦ some (some plain, d')
                | some (true, h, d') ↦ some (
                  some (
                      plain
                      ++ (drop (dot + 1) start
                          ++ (b'_' ∷ b'1' ∷ b'_' ∷ []
                              ++ (folders.date_text h
                                  ++ b'_' ∷ b'0' ∷ b'0' ∷ b'0' ∷ b'1' ∷ b'_' ∷ b'C' ∷ b'0' ∷ b'0'
                                    ∷ b'0' ∷ b'0' ∷ [])))),
                  d',
                )
              ] in
            if options.name_scheme == 1 then dated else some (some plain, d)
      ] in
      if is_mlv_file path then named else some (none, d)

  -- A child of the folder: the names that are listed for it, and the disk.
  unfoldable pub list_child : Bytes → Bool → Dirent → Disk → Option (List Bytes × Disk)
  list_child real_path is_mld_dir child d =
      let real_file_path = path_append real_path child.d_name in
      let unknown : List Bytes = elim (child.d_type) [
        | dt_dir ↦ child.d_name ∷ []
        | dt_unknown ↦ if folders.is_dir real_file_path d then child.d_name ∷ [] else []
        | dt_other ↦ []
      ] in
      let real = if is_mlv_file child.d_name || is_mld_dir then child.d_name ∷ [] else unknown in
      let listed : Option (List Bytes × Disk) = elim (get_mlv_basename real_file_path d) [
        | none ↦ none
        | some (none, d') ↦ some (real, d')
        | some (some mlv_basename, d') ↦ some (mlv_basename ∷ [], d')
      ] in
      if string_ends_with child.d_name mld
        || (string_ends_with child.d_name dot_idx
            || (bytes_eq child.d_name (b'.' ∷ b'.' ∷ []) || bytes_eq child.d_name (b'.' ∷ [])))
      then some ([], d)
      else if options.name_scheme == 0
      then some (real, d)
      else listed

  unfoldable pub list_children : Bytes → Bool → List Dirent → Disk → Option (List Bytes × Disk)
  list_children real_path is_mld_dir [] d = some ([], d)
  list_children real_path is_mld_dir (child ∷ children) d =
      elim (list_child real_path is_mld_dir child d) [
        | none ↦ none
        | some (names, d') ↦ elim (list_children real_path is_mld_dir children d') [
          | none ↦ none
          | some (others, d'') ↦ some (names ++ others, d'')
        ]
      ]

  -- The `if (real_path)`, with the result and the names so far.
  unfoldable pub list_real :
      Option Bytes → Bool → Number → List Bytes → Disk → Option (Number × List Bytes × Disk)
  list_real none is_mld_dir result names d = some (result, names, d)
  list_real (some real_path) is_mld_dir result names d = elim (folders.opendir real_path d) [
    | none ↦ some (result, names, d)
    | some children ↦ elim (list_children real_path is_mld_dir children d) [
      | none ↦ none
      | some (others, d') ↦
          some (plus 0, (if is_mld_dir then names else names ++ dots) ++ others, d')
    ]
  ]

  -- The listing of an MLV file.
  unfoldable pub list_mlv : Bytes → Disk → Option (Number × List Bytes × Disk)
  list_mlv mlv_filename d = elim (get_mlv_basename mlv_filename d) [
    | none ↦ none
    | some (none, d') ↦ some (minus 2, dots, d')
    | some (some mlv_basename, d') ↦ elim (mlv_get_frame_count stack.main_header mlv_filename d') [
      | none ↦ none
      | some (frame_count, d'') ↦
          list_real (some (mld_name mlv_filename)) true (plus 0)
            (dots ++ virtual_names mlv_basename (has_audio mlv_filename d') frame_count) d''
    ]
  ]

  -- The result, the names that are passed to `filler`, and the disk.
  unfoldable pub mlvfs_readdir : Bytes → Disk → Option (Number × List Bytes × Disk)
  mlvfs_readdir path d =
      let listed : Option (Number × List Bytes × Disk) =
        elim (mlvfs_resolve_path slre_match options path) [
          | none ↦
              list_real (some (path_append options.mlv_path (path_slashfix path))) false (minus 2)
                [] d
          | some (mlv_filename, path_in_mlv) ↦
              let inside =
                list_real (mlvfs_resolve_virtual slre_match options path) false (minus 2) [] d in
              if length path_in_mlv == 0 then list_mlv mlv_filename d else inside
        ] in
      if string_ends_with path mld then some (minus 2, [], d) else listed
