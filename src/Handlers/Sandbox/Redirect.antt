-- ===== src/Handlers/Sandbox/Redirect.antt =====
-- The file that backs a path inside an MLV file has ".MLD" in its name, in mlvfs/main.c.
use mlvfs.Base.{
  ℕ, suc, ◌+◌, ◌≡◌, refl, ap, sym, ◌∙◌, inl, inr, true, false, ◌||◌, some, List, [], ◌∷◌, ◌++◌,
  length, take, drop, append_assoc, Bytes, arith, Bool-cases, Option-cases, All, All-append, ◌==◌,
}
use mlvfs.Paths.{
  SlreMatch, Options, path_append, starts_with, strstr, hidden, mld, is_mlv_file, mld_name,
  is_virtual_name, mlvfs_resolve_virtual, first_char, backslash, string_ends_with,
}
use mlvfs.Paths.Endings.{is_mlv_file-path_append}
use mlvfs.Paths.Names.{IsName, join, join-IsPlain, split_mlv}
use mlvfs.Paths.Resolve.{is_mlv_file-snoc}
use mlvfs.Paths.Backing.{backing, mld_name_lem, mlvfs_resolve_virtual_lem}
use mlvfs.Handlers.{find_part}

-- A path that stands inside an MLV file.
pub record InsideMlv (path : Bytes) : Type 0 where
  pub names : List Bytes
  pub mlv : List Bytes
  pub name : Bytes
  pub others : List Bytes
  pub path_lem : path ≡ b'/' ∷ join names
  pub names_lem : All IsName names
  pub shown : strstr path hidden ≡ false
  pub split : split_mlv names ≡ some (mlv, name ∷ others)

starts_with_empty : (bs : Bytes) → starts_with bs [] ≡ true
unfolding starts_with
starts_with_empty [] = refl
starts_with_empty (b ∷ bs) = refl

starts_with-append : (ps rest : Bytes) → starts_with (ps ++ rest) ps ≡ true
unfolding starts_with
starts_with-append [] rest = starts_with_empty rest
starts_with-append (p ∷ ps) rest = ground (arith, starts_with-append ps rest)

strstr-starts_with : (bs part : Bytes) → starts_with bs part ≡ true → strstr bs part ≡ true
unfolding strstr
strstr-starts_with [] part h = h
strstr-starts_with (b ∷ bs) part h = rw h refl

-- A part that stands somewhere is found.
strstr-append : (start part rest : Bytes) → strstr (start ++ (part ++ rest)) part ≡ true
unfolding strstr
strstr-append [] part rest = strstr-starts_with (part ++ rest) part (starts_with-append part rest)
strstr-append (b ∷ start) part rest = ground (arith, strstr-append start part rest)

starts_with-take :
    (bs ps : Bytes) → starts_with bs ps ≡ true → starts_with (take (length ps) bs) ps ≡ true
unfolding starts_with
starts_with-take bs [] h = refl
starts_with-take [] (p ∷ ps) h = h
starts_with-take (b ∷ bs) (p ∷ ps) h = ground (arith, starts_with-take bs ps)

strstr-cons : (b : ℕ) (bs part : Bytes) → strstr bs part ≡ true → strstr (b ∷ bs) part ≡ true
unfolding strstr
strstr-cons b bs part h = ground (arith, h)

-- What is cut off behind a part ends in it.
pub strstr-take :
    (path part : Bytes) (i : ℕ)
    → find_part path part ≡ some i
    → strstr (take (i + length part) path) part ≡ true
unfolding find_part
strstr-take [] part i h = elim (Bool-cases (starts_with [] part)) [
  | inl e ↦
      let first : i ≡ 0 = ground (arith, e) in
      let k : i + length part ≡ length part = omega (arith, first) in
      rw k (strstr-starts_with (take (length part) []) part (starts_with-take [] part e))
  | inr e ↦ absurd (ground (arith, e))
]
strstr-take (b ∷ bs) part i h = elim (Bool-cases (starts_with (b ∷ bs) part)) [
  | inl e ↦
      let first : i ≡ 0 = ground (arith, e) in
      let k : i + length part ≡ length part = omega (arith, first) in
      rw k
        (strstr-starts_with (take (length part) (b ∷ bs)) part (starts_with-take (b ∷ bs) part e))
  | inr e ↦ elim (Option-cases (find_part bs part)) [
    | inl f ↦ absurd (ground (arith, e, f))
    | inr (j, f) ↦
        let later : i ≡ suc j = ground (arith, e, f) in
        let k : i + length part ≡ suc (j + length part) = omega (arith, later) in
        rw k (strstr-cons b (take (j + length part) bs) part (strstr-take bs part j f))
  ]
]

path_append-starts :
    (path1 path2 : Bytes) → (rest : Bytes) × (path_append path1 path2 ≡ path1 ++ rest)
unfolding path_append
path_append-starts path1 path2 =
    let sep = first_char path2 == b'/' || first_char path2 == backslash in
    let ends = string_ends_with path1 (b'/' ∷ []) || string_ends_with path1 (backslash ∷ []) in
    elim (Bool-cases ends) [
      | inl e ↦ elim (Bool-cases sep) [
        | inl f ↦ (drop 1 path2, rw (e, f) refl)
        | inr f ↦ (path2, rw (e, f) refl)
      ]
      | inr e ↦ elim (Bool-cases sep) [
        | inl f ↦ (path2, rw (e, f) refl)
        | inr f ↦ (b'/' ∷ path2, rw (e, f) refl)
      ]
    ]

-- A path below the ".MLD" folder of an MLV file holds ".MLD".
strstr-mld_name :
    (name rest : Bytes)
    → is_mlv_file name ≡ true
    → strstr (path_append (mld_name name) rest) mld ≡ true
strstr-mld_name name rest h =
    let (start, _, e) = mld_name_lem name h in
    let (tail, f) = path_append-starts (mld_name name) rest in
    let g : path_append (mld_name name) rest ≡ start ++ (mld ++ tail) =
      f ∙ (ap (◌++ tail) e ∙ append_assoc start mld tail) in
    rw g (strstr-append start mld tail)

-- The names up to the MLV file end in it.
pub split_mlv-mlv :
    (done ns a b : List Bytes)
    → split_mlv ns ≡ some (a, b)
    → All IsName done
    → All IsName ns
    → All IsName (done ++ a) × (is_mlv_file (join (done ++ a)) ≡ true)
unfolding split_mlv
split_mlv-mlv done [] a b e h k = absurd (ground arith)
split_mlv-mlv done (n ∷ ns) a b e h k = elim (Bool-cases (is_mlv_file n)) [
  | inl m ↦
      let same : n ∷ [] ≡ a = ground (arith, m) in
      rw (← same) (All-append IsName done (n ∷ []) h (k.0, tt), is_mlv_file-snoc done n ∙ m)
  | inr m ↦ elim (Option-cases (split_mlv ns)) [
    | inl f ↦ absurd (ground (arith, m, f))
    | inr ((c, d), f) ↦
        let same : n ∷ c ≡ a = ground (arith, m, f) in
        let more = All-append IsName done (n ∷ []) h (k.0, tt) in
        let rest = split_mlv-mlv (done ++ n ∷ []) ns c d f more k.1 in
        rw (← same, ← append_assoc done (n ∷ []) c) rest
  ]
]

backed-mld :
    (root : Bytes) (names mlv : List Bytes) (name : Bytes) (others : List Bytes) (real : Bytes)
    → split_mlv names ≡ some (mlv, name ∷ others)
    → is_mlv_file (path_append root (join mlv)) ≡ true
    → backing root names ≡ some real
    → strstr real mld ≡ true
unfolding backing
backed-mld root names mlv name [] real s m e = elim (Bool-cases (is_virtual_name name)) [
  | inl v ↦ absurd (ground (arith, s, v, e))
  | inr v ↦
      let file = path_append root (join mlv) in
      let same : path_append (mld_name file) name ≡ real = ground (arith, s, v, e) in
      rw (← same) (strstr-mld_name file name m)
]
backed-mld root names mlv name (other ∷ others) real s m e =
    let file = path_append root (join mlv) in
    let rest = join (name ∷ other ∷ others) in
    let same : path_append (mld_name file) rest ≡ real = ground (arith, s, e) in
    rw (← same) (strstr-mld_name file rest m)

module _ (slre_match : SlreMatch) (options : Options) where
  -- A path inside an MLV file is virtual, or is backed by a file with ".MLD" in its name.
  pub backing-InsideMlv :
      (path real : Bytes)
      → options.name_scheme ≡ 0
      → InsideMlv path
      → mlvfs_resolve_virtual slre_match options path ≡ some real
      → strstr real mld ≡ true
  unfolding backing
  backing-InsideMlv path real scheme v h =
      let shown : strstr (b'/' ∷ join v.names) hidden ≡ false =
        ap (λ (x : Bytes). strstr x hidden) (sym v.path_lem) ∙ v.shown in
      let e : backing options.mlv_path v.names ≡ some real =
        sym (mlvfs_resolve_virtual_lem slre_match options v.names scheme v.names_lem shown)
        ∙ (ap (mlvfs_resolve_virtual slre_match options) (sym v.path_lem) ∙ h) in
      let (plain, is_mlv) =
        split_mlv-mlv [] v.names v.mlv (v.name ∷ v.others) v.split tt v.names_lem in
      let file : is_mlv_file (path_append options.mlv_path (join v.mlv)) ≡ true =
        is_mlv_file-path_append options.mlv_path (join v.mlv) (join-IsPlain v.mlv plain) ∙ is_mlv in
      backed-mld options.mlv_path v.names v.mlv v.name v.others real v.split file e
