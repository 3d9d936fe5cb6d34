-- ===== src/Paths/Backing.antt =====
-- The file on disk that `mlvfs_resolve_virtual` of mlvfs/main.c finds for a path.
use mlvfs.Base.{
  ◌≡◌, refl, ap, subst, ◌∙◌, ◌⊎◌, inl, inr, true, false, Option, none, some, List, [], ◌∷◌, ◌++◌,
  length, take, if◌then◌else◌, Bytes, arith, Bool-cases, Option-cases, All, take-append,
}
use mlvfs.FrameNumber.{last_dot}
use mlvfs.Paths.{
  SlreMatch, Options, path_append, find_first_separator, is_mlv_file, strstr, hidden,
  is_virtual_name, mld_name, mld, upper_mlv, lower_mlv, mlvfs_resolve_virtual, string_ends_with,
}
use mlvfs.Paths.Endings.{Lacks, path_slashfix_lem, string_ends_with_lem}
use mlvfs.Paths.Names.{
  IsName, join, split_mlv, find_first_separator-append, find_first_separator-Lacks, length-join_pos,
}
use mlvfs.Paths.Resolve.{found, mlvfs_resolve_path_lem}

last_dot-Lacks : (bs : Bytes) → Lacks b'.' bs → last_dot bs ≡ none
unfolding last_dot
last_dot-Lacks [] h = refl
last_dot-Lacks (b ∷ bs) h = rw (last_dot-Lacks bs h.1, h.0) refl

pub last_dot-append :
    (xs ys : Bytes) → Lacks b'.' ys → last_dot (xs ++ b'.' ∷ ys) ≡ some (length xs)
unfolding last_dot
last_dot-append [] ys h = rw (last_dot-Lacks ys h) refl
last_dot-append (x ∷ xs) ys h = rw (last_dot-append xs ys h) refl

-- The name beside an MLV file: the ending ".MLV" or ".mlv", whichever it has, is replaced by ".MLD".
pub mld_name_lem :
    (name : Bytes)
    → is_mlv_file name ≡ true
    → (start : Bytes) × ((name ≡ start ++ upper_mlv) ⊎ (name ≡ start ++ lower_mlv))
      × (mld_name name ≡ start ++ mld)
unfolding is_mlv_file mld_name
mld_name_lem name h = elim (Bool-cases (string_ends_with name upper_mlv)) [
  | inl e ↦
      let (start, f) = (string_ends_with_lem name upper_mlv (omega arith)).0 e in
      let dot : last_dot name ≡ some (length start) =
        ap last_dot f
        ∙ last_dot-append start (b'M' ∷ b'L' ∷ b'V' ∷ []) (refl, (refl, (refl, tt))) in
      let head : take (length start) name ≡ start =
        ap (take (length start)) f ∙ take-append start upper_mlv in
      (start, inl f, rw (dot, mld_name, head) refl)
  | inr e ↦
      let low : string_ends_with name lower_mlv ≡ true = ground (arith, e) in
      let (start, f) = (string_ends_with_lem name lower_mlv (omega arith)).0 low in
      let dot : last_dot name ≡ some (length start) =
        ap last_dot f
        ∙ last_dot-append start (b'm' ∷ b'l' ∷ b'v' ∷ []) (refl, (refl, (refl, tt))) in
      let head : take (length start) name ≡ start =
        ap (take (length start)) f ∙ take-append start lower_mlv in
      (start, inr f, rw (dot, mld_name, head) refl)
]

-- The file that backs a path, from its names.
unfoldable pub backing : Bytes → List Bytes → Option Bytes
backing root ns = elim (split_mlv ns) [
  | none ↦ some (path_append root (b'/' ∷ join ns))
  | some (a, []) ↦ some (path_append root (join a))
  | some (a, x ∷ []) ↦
      if is_virtual_name x
      then none
      else some (path_append (mld_name (path_append root (join a))) x)
  | some (a, x ∷ y ∷ b) ↦
      some (path_append (mld_name (path_append root (join a))) (join (x ∷ y ∷ b)))
]

pub split_mlv-rest :
    (ns a b : List Bytes) → split_mlv ns ≡ some (a, b) → All IsName ns → All IsName b
unfolding split_mlv
split_mlv-rest [] a b e h = absurd (ground arith)
split_mlv-rest (n ∷ ns) a b e h = elim (Bool-cases (is_mlv_file n)) [
  | inl m ↦ let same : ns ≡ b = ground (arith, m) in subst (All IsName) same h.1
  | inr m ↦ elim (Option-cases (split_mlv ns)) [
    | inl f ↦ absurd (ground (arith, m, f))
    | inr ((c, d), f) ↦
        let same : d ≡ b = ground (arith, m, f) in
        subst (All IsName) same (split_mlv-rest ns c d f h.1)
  ]
]

no_name : (find_first_separator [] ≡ none) × (is_virtual_name [] ≡ false)
unfolding find_first_separator is_virtual_name string_ends_with
no_name = (refl, refl)

module _ (slre_match : SlreMatch) (options : Options) where
  -- With the plain name scheme, the file that backs a path of names that are not empty and hold
  -- no slash or backslash, and where no slash with "._" occurs, depends on its names. With no MLV file
  -- among them it is the path below the root, and for an MLV file that is the last name, it is that file. A
  -- name that ends in ".dng", ".wav", ".gif" or ".log" directly in an MLV file has none. Every other path in an MLV file stands
  -- for one in the ".MLD" folder beside it.
  pub mlvfs_resolve_virtual_lem :
      (ns : List Bytes)
      → options.name_scheme ≡ 0
      → All IsName ns
      → strstr (b'/' ∷ join ns) hidden ≡ false
      → mlvfs_resolve_virtual slre_match options (b'/' ∷ join ns) ≡ backing options.mlv_path ns
  unfolding mlvfs_resolve_virtual backing found
  mlvfs_resolve_virtual_lem ns scheme h seen =
      let e = mlvfs_resolve_path_lem slre_match options ns scheme h seen in
      elim (Option-cases (split_mlv ns)) [
        | inl f ↦
            rw (mlvfs_resolve_virtual, e, f, backing, found, path_slashfix_lem (b'/' ∷ join ns))
              refl
        | inr ((a, []), f) ↦
            rw (mlvfs_resolve_virtual, e, f, backing, found, seen, no_name.0, no_name.1) refl
        | inr ((a, x ∷ []), f) ↦
            let names = split_mlv-rest ns a (x ∷ []) f h in
            rw
              (
                mlvfs_resolve_virtual,
                e,
                f,
                backing,
                found,
                seen,
                find_first_separator-Lacks x (names.0).1,
                length-join_pos x [] names.0,
                path_slashfix_lem x,
              )
              refl
        | inr ((a, x ∷ y ∷ b), f) ↦
            let names = split_mlv-rest ns a (x ∷ y ∷ b) f h in
            rw
              (
                mlvfs_resolve_virtual,
                e,
                f,
                backing,
                found,
                find_first_separator-append x (join (y ∷ b)) (names.0).1,
                length-join_pos x (y ∷ b) names.0,
                path_slashfix_lem (join (x ∷ y ∷ b)),
              )
              refl
      ]
