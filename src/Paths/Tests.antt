-- ===== src/Paths/Tests.antt =====
-- Paths of mlvfs/main.c below the root "/v".
use mlvfs.Base.{
  suc, ◌≡◌, refl, false, Option, none, some, List, [], ◌∷◌, length, All, if◌then◌else◌, arith,
  Bytes, bytes_eq,
}
use mlvfs.FrameNumber.{last_dot}
use mlvfs.Paths.{
  SlreMatch, Options, string_ends_with, path_append, path_slashfix, find_first_separator,
  starts_with, strstr, hidden, is_mlv_file, skip_separators, is_virtual_name, mld_name, upper_mlv,
  check_path, take_token, resolve_loop, mlvfs_resolve_path, mlvfs_resolve_virtual,
}
use mlvfs.Paths.Names.{IsName, join, split_mlv}
use mlvfs.Paths.Resolve.{found, mlvfs_resolve_path_lem, mlvfs_resolve_path_total}
use mlvfs.Paths.Backing.{backing, mlvfs_resolve_virtual_lem}

abbrev no_match : SlreMatch
no_match path = none

abbrev options : Options
options = record { mlv_path = b'/' ∷ b'v' ∷ []; name_scheme = 0 }

abbrev folder : Bytes
folder = b'd' ∷ []

abbrev movie : Bytes
movie = b'A' ∷ upper_mlv

abbrev frame : Bytes
frame = b'x' ∷ b'.' ∷ b'd' ∷ b'n' ∷ b'g' ∷ []

abbrev names : List Bytes
names = folder ∷ movie ∷ frame ∷ []

names-IsName : All IsName names
names-IsName = (
  (omega arith, (refl, tt), (refl, tt)),
  (
    (
      omega arith,
      (refl, (refl, (refl, (refl, (refl, tt))))),
      (refl, (refl, (refl, (refl, (refl, tt))))),
    ),
    (
      (
        omega arith,
        (refl, (refl, (refl, (refl, (refl, tt))))),
        (refl, (refl, (refl, (refl, (refl, tt))))),
      ),
      tt,
    ),
  ),
)

names-seen : strstr (b'/' ∷ join names) hidden ≡ false
unfolding strstr starts_with
names-seen = refl

mlvfs_resolve_path_lem_example :
    mlvfs_resolve_path no_match options (b'/' ∷ join names)
    ≡ found no_match options [] (split_mlv names)
mlvfs_resolve_path_lem_example =
    mlvfs_resolve_path_lem no_match options names refl names-IsName names-seen

mlvfs_resolve_path_total_example :
    (r : Option (Bytes × Bytes)) × (resolve_loop no_match options
        (suc (length (b'/' ∷ join names)))
        []
        (b'/' ∷ join names)
      ≡ some r)
    × (mlvfs_resolve_path no_match options (b'/' ∷ join names)
        ≡ (if strstr (b'/' ∷ join names) hidden then none else r))
mlvfs_resolve_path_total_example = mlvfs_resolve_path_total no_match options (b'/' ∷ join names)

mlvfs_resolve_virtual_lem_example :
    mlvfs_resolve_virtual no_match options (b'/' ∷ join names) ≡ backing (b'/' ∷ b'v' ∷ []) names
mlvfs_resolve_virtual_lem_example =
    mlvfs_resolve_virtual_lem no_match options names refl names-IsName names-seen

-- The frame is virtual, and is inside "/v/d/A.MLV".
resolve-frame :
    (mlvfs_resolve_path no_match options (b'/' ∷ join names)
      ≡ some (b'/' ∷ b'v' ∷ b'/' ∷ b'd' ∷ b'/' ∷ movie, frame))
    × (mlvfs_resolve_virtual no_match options (b'/' ∷ join names) ≡ none)
unfolding mlvfs_resolve_path mlvfs_resolve_virtual resolve_loop check_path take_token path_append
    path_slashfix find_first_separator starts_with strstr is_mlv_file skip_separators
    is_virtual_name string_ends_with bytes_eq
resolve-frame = (refl, refl)

-- A folder in the movie stands beside it.
resolve-sibling :
    mlvfs_resolve_virtual no_match options (b'/' ∷ join (movie ∷ folder ∷ []))
    ≡ some (b'/' ∷ b'v' ∷ b'/' ∷ b'A' ∷ b'.' ∷ b'M' ∷ b'L' ∷ b'D' ∷ b'/' ∷ folder)
unfolding mlvfs_resolve_path mlvfs_resolve_virtual resolve_loop check_path take_token path_append
    path_slashfix find_first_separator starts_with strstr is_mlv_file skip_separators
    is_virtual_name string_ends_with bytes_eq mld_name last_dot
resolve-sibling = refl
