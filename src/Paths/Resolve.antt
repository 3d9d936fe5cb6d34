-- ===== src/Paths/Resolve.antt =====
-- What `mlvfs_resolve_path` of mlvfs/main.c finds, and that its loop ends.
use mlvfs.Base.{
  ℕ, zero, suc, ◌+◌, ◌≤◌, ◌<◌, ◌≡◌, refl, ap, ◌∙◌, inl, inr, true, false, Option, none, some, List,
  [], ◌∷◌, ◌++◌, length, drop, append_assoc, ◌==◌, if◌then◌else◌, Bytes, arith, Bool-cases,
  Option-cases, All, All-append, length-drop, take-append,
}
use mlvfs.Paths.{
  SlreMatch, Options, path_append, find_first_separator, skip_separators, is_mlv_file, strstr,
  hidden, check_path, take_token, string_ends_with, resolve_loop, mlvfs_resolve_path,
}
use mlvfs.Paths.Endings.{is_mlv_file-name, is_mlv_file-path_append, path_slashfix_lem}
use mlvfs.Paths.Names.{
  IsName, join, split_mlv, find_first_separator-append, find_first_separator-Lacks,
  skip_separators-plain, join-IsPlain, length-join_pos, join-snoc, length-join,
}

pub is_mlv_file-snoc :
    (done : List Bytes) (n : Bytes) → is_mlv_file (join (done ++ n ∷ [])) ≡ is_mlv_file n
is_mlv_file-snoc [] n = refl
is_mlv_file-snoc (a ∷ done) n =
    ap is_mlv_file (join-snoc (a ∷ done) n (omega arith))
    ∙ is_mlv_file-name b'/' (join (a ∷ done)) n (inl refl)

drop-append_one : (xs : Bytes) (c : ℕ) (ys : Bytes) → drop (length xs + 1) (xs ++ c ∷ ys) ≡ ys
drop-append_one [] c ys = refl
drop-append_one (x ∷ xs) c ys =
    let e : suc (length xs) + 1 ≡ suc (length xs + 1) = omega arith in
    rw e (drop-append_one xs c ys)

module _ (slre_match : SlreMatch) (options : Options) where
  take_token-name :
      (done : List Bytes) (n : Bytes) (ns : List Bytes)
      → All IsName done
      → IsName n
      → take_token slre_match options (join done) (join (n ∷ ns)) ≡ (join (done ++ n ∷ []), join ns)
  unfolding take_token
  take_token-name [] n [] h k = rw (take_token, find_first_separator-Lacks n k.1) refl
  take_token-name [] n (m ∷ ns) h k =
      rw
        (
          take_token,
          find_first_separator-append n (join (m ∷ ns)) k.1,
          take-append n (b'/' ∷ join (m ∷ ns)),
          drop-append_one n b'/' (join (m ∷ ns)),
        )
        refl
  take_token-name (a ∷ done) n [] h k =
      let e : (length (join (a ∷ done)) == 0) ≡ false = length-join_pos a done h.0 in
      rw
        (
          take_token,
          find_first_separator-Lacks n k.1,
          e,
          join-snoc (a ∷ done) n (omega arith),
          append_assoc (join (a ∷ done)) (b'/' ∷ []) n,
        )
        refl
  take_token-name (a ∷ done) n (m ∷ ns) h k =
      let e : (length (join (a ∷ done)) == 0) ≡ false = length-join_pos a done h.0 in
      rw
        (
          take_token,
          find_first_separator-append n (join (m ∷ ns)) k.1,
          e,
          take-append n (b'/' ∷ join (m ∷ ns)),
          drop-append_one n b'/' (join (m ∷ ns)),
          join-snoc (a ∷ done) n (omega arith),
          append_assoc (join (a ∷ done)) (b'/' ∷ []) n,
        )
        refl

  check_path_lem :
      (done : List Bytes)
      → options.name_scheme ≡ 0
      → All IsName done
      → check_path slre_match options (join done) ≡ (
          if is_mlv_file (join done) then some (path_append options.mlv_path (join done)) else none)
  unfolding check_path
  check_path_lem done scheme h =
      let e : (options.name_scheme == 0) ≡ true = ground arith in
      rw
        (
          check_path,
          path_slashfix_lem (join done),
          e,
          is_mlv_file-path_append options.mlv_path (join done) (join-IsPlain done h),
        )
        refl

  -- The MLV file and the path inside it, from the names.
  unfoldable pub found : List Bytes → Option (List Bytes × List Bytes) → Option (Bytes × Bytes)
  found done none = none
  found done (some (a, b)) = some (path_append options.mlv_path (join (done ++ a)), join b)

  resolve_loop-slash :
      (fuel : ℕ) (current_path token : Bytes)
      → resolve_loop slre_match options (suc fuel) current_path (b'/' ∷ token)
        ≡ resolve_loop slre_match options (suc fuel) current_path token
  unfolding resolve_loop skip_separators
  resolve_loop-slash fuel current_path token = refl

  -- The round that finds the MLV file.
  resolve_loop-found :
      (fuel : ℕ) (done : List Bytes) (n : Bytes) (ns : List Bytes)
      → options.name_scheme ≡ 0
      → All IsName (done ++ n ∷ [])
      → All IsName ns
      → is_mlv_file n ≡ true
      → 0 < fuel
      → resolve_loop slre_match options fuel (join (done ++ n ∷ [])) (join ns)
        ≡ some (found done (split_mlv (n ∷ ns)))
  unfolding found split_mlv resolve_loop
  resolve_loop-found zero done n ns scheme h k e o = absurd (omega arith)
  resolve_loop-found (suc fuel) done n ns scheme h k e o =
      let m : is_mlv_file (join (done ++ n ∷ [])) ≡ true = is_mlv_file-snoc done n ∙ e in
      let skip : skip_separators (join ns) ≡ join ns =
        skip_separators-plain (join ns) (join-IsPlain ns k).0 in
      rw (resolve_loop, check_path_lem (done ++ n ∷ []) scheme h, m, skip, e) refl

  found-later :
      (done : List Bytes) (n : Bytes) (ns : List Bytes)
      → is_mlv_file n ≡ false
      → found (done ++ n ∷ []) (split_mlv ns) ≡ found done (split_mlv (n ∷ ns))
  unfolding found split_mlv
  found-later done n ns e = elim (Option-cases (split_mlv ns)) [
    | inl f ↦ rw (e, f, found) refl
    | inr ((a, b), f) ↦ rw (e, f, found, append_assoc done (n ∷ []) a) refl
  ]

  resolve_loop-names :
      (fuel : ℕ) (done rest : List Bytes)
      → options.name_scheme ≡ 0
      → All IsName done
      → All IsName rest
      → is_mlv_file (join done) ≡ false
      → length rest < fuel
      → resolve_loop slre_match options fuel (join done) (join rest)
        ≡ some (found done (split_mlv rest))
  unfolding resolve_loop found split_mlv skip_separators
  resolve_loop-names zero done rest scheme h k m enough = absurd (omega arith)
  resolve_loop-names (suc fuel) done [] scheme h k m enough =
      rw (resolve_loop, check_path_lem done scheme h, m) refl
  resolve_loop-names (suc fuel) done (n ∷ ns) scheme h k m enough =
      let skip : skip_separators (join (n ∷ ns)) ≡ join (n ∷ ns) =
        skip_separators-plain (join (n ∷ ns)) (join-IsPlain (n ∷ ns) k).0 in
      let more : All IsName (done ++ n ∷ []) = All-append IsName done (n ∷ []) h (k.0, tt) in
      let step : resolve_loop slre_match options (suc fuel) (join done) (join (n ∷ ns))
          ≡ resolve_loop slre_match options fuel (join (done ++ n ∷ [])) (join ns) =
        rw
          (
            resolve_loop,
            check_path_lem done scheme h,
            m,
            skip,
            length-join_pos n ns k.0,
            take_token-name done n ns h k.0,
          )
          refl in
      elim (Bool-cases (is_mlv_file n)) [
        | inl e ↦ step ∙ resolve_loop-found fuel done n ns scheme more k.1 e (omega arith)
        | inr e ↦
            let rest =
              resolve_loop-names fuel (done ++ n ∷ []) ns scheme more k.1
                (is_mlv_file-snoc done n ∙ e) (omega arith) in
            step ∙ (rest ∙ ap some (found-later done n ns e))
      ]

  -- With the plain name scheme, a path of names that are not empty and hold no slash or
  -- backslash, and where no slash with "._" occurs, is resolved by its names. If none of them
  -- ends in ".MLV" or ".mlv" it is inside no MLV file. Otherwise the MLV file is the path up
  -- to the first of these, below the root, and the path inside it has the other names.
  pub mlvfs_resolve_path_lem :
      (ns : List Bytes)
      → options.name_scheme ≡ 0
      → All IsName ns
      → strstr (b'/' ∷ join ns) hidden ≡ false
      → mlvfs_resolve_path slre_match options (b'/' ∷ join ns) ≡ found [] (split_mlv ns)
  unfolding mlvfs_resolve_path is_mlv_file string_ends_with
  mlvfs_resolve_path_lem ns scheme h seen =
      let enough : length ns < suc (length (b'/' ∷ join ns)) = omega (arith, length-join ns h) in
      let loop = resolve_loop-names (suc (length (b'/' ∷ join ns))) [] ns scheme tt h refl enough in
      let first = resolve_loop-slash (length (b'/' ∷ join ns)) [] (join ns) in
      rw (seen, first, loop) refl

  length-skip_separators : (token : Bytes) → length (skip_separators token) ≤ length token
  unfolding skip_separators
  length-skip_separators [] = omega arith
  length-skip_separators (b ∷ bs) = elim (Bool-cases (b == b'/')) [
    | inl e ↦ rw e (omega (arith, length-skip_separators bs))
    | inr e ↦ rw e (omega arith)
  ]

  length-take_token :
      (current_path token : Bytes)
      → 0 < length token
      → length ((take_token slre_match options current_path token).1) < length token
  unfolding take_token
  length-take_token current_path token o = elim (Option-cases (find_first_separator token)) [
    | inl e ↦ rw (take_token, e) o
    | inr (i, e) ↦ rw (take_token, e) (omega (arith, length-drop (i + 1) token))
  ]

  resolve_loop_total :
      (fuel : ℕ) (current_path token : Bytes)
      → length token < fuel
      → (r : Option (Bytes × Bytes)) × (resolve_loop slre_match options fuel current_path token
          ≡ some r)
  unfolding resolve_loop
  resolve_loop_total zero current_path token h = absurd (omega arith)
  resolve_loop_total (suc fuel) current_path token h =
      let t = skip_separators token in
      let next = take_token slre_match options current_path t in
      elim (Option-cases (check_path slre_match options current_path)) [
        | inr (m, e) ↦ (some (m, t), rw (resolve_loop, e) refl)
        | inl e ↦ elim (Bool-cases (length t == 0)) [
          | inl z ↦ (none, rw (resolve_loop, e, z) refl)
          | inr z ↦
              let (r, f) = resolve_loop_total fuel next.0 next.1 (
                omega (
                  arith,
                  length-skip_separators token,
                  length-take_token current_path t (ground arith),
                )) in
              (r, rw (resolve_loop, e, z) f)
        ]
      ]

  -- The loop ends for every path, with the fuel that it is given: no path is taken to be outside of
  -- the MLV files for a lack of fuel.
  pub mlvfs_resolve_path_total :
      (path : Bytes)
      → (r : Option (Bytes × Bytes)) × (resolve_loop slre_match options (suc (length path)) [] path
          ≡ some r)
        × (mlvfs_resolve_path slre_match options path ≡ (if strstr path hidden then none else r))
  unfolding mlvfs_resolve_path is_mlv_file string_ends_with
  mlvfs_resolve_path_total path =
      let (r, e) = resolve_loop_total (suc (length path)) [] path (omega arith) in
      (r, e, rw (mlvfs_resolve_path, e) refl)
