-- ===== src/Paths/Endings.antt =====
-- What `string_ends_with` and `path_append` of mlvfs/main.c do to paths made of names.
use mlvfs.Base.{
  ℕ, ◌+◌, ◌-◌, ◌<◌, ◌≡◌, refl, ap, sym, subst, ◌∙◌, ◌↔◌, ◌⊎◌, inl, inr, Bool, true, false, [], ◌∷◌,
  ◌++◌, length, length-append, drop, drop-append, append_assoc, ltb, ◌==◌, Bytes, bytes_eq_refl,
  eq_of_bytes_eq, arith, Bool-cases, take, take-append-drop, All,
}
use mlvfs.Paths.{
  string_ends_with, first_char, path_append, path_slashfix, backslash, is_mlv_file, upper_mlv,
  lower_mlv,
}

string_ends_with-append :
    (start ending : Bytes) → 0 < length ending → string_ends_with (start ++ ending) ending ≡ true
unfolding string_ends_with
string_ends_with-append start ending o =
    let l : length (start ++ ending) ≡ length start + length ending = length-append start ending in
    let a : (length (start ++ ending) == 0) ≡ false = ground (arith, l) in
    let b : ltb (length (start ++ ending)) (length ending) ≡ false = ground (arith, l) in
    let c : length (start ++ ending) - length ending ≡ length start = omega (arith, l) in
    rw (a, b, c, drop-append start ending) (bytes_eq_refl ending)

string_ends_with-start :
    (source ending : Bytes)
    → string_ends_with source ending ≡ true
    → source ≡ take (length source - length ending) source ++ ending
unfolding string_ends_with
string_ends_with-start source ending h =
    let k = length source - length ending in
    let same : drop k source ≡ ending = ground (arith, eq_of_bytes_eq (drop k source) ending) in
    sym (take-append-drop k source) ∙ ap (λ (e : Bytes). take k source ++ e) same

-- For an ending that is not empty, `string_ends_with` holds exactly of the strings that are
-- something followed by the ending.
pub string_ends_with_lem :
    (source ending : Bytes)
    → 0 < length ending
    → (string_ends_with source ending ≡ true) ↔ ((start : Bytes) × (source ≡ start ++ ending))
string_ends_with_lem source ending o = (
  λ h. (take (length source - length ending) source, string_ends_with-start source ending h),
  λ e. rw (e.1) (string_ends_with-append e.0 ending o),
)

abbrev pub Lacks : ℕ → Bytes → Type 0
Lacks c = All (λ (b : ℕ). (b == c) ≡ false)

has_char : (c : ℕ) (xs ys : Bytes) → Lacks c (xs ++ c ∷ ys) → (true ≡ false)
has_char c [] ys h = ground (arith, h.0)
has_char c (x ∷ xs) ys h = has_char c xs ys h.1

-- An ending that lacks a character stands behind it.
after_char :
    (c : ℕ) (xs name start ending : Bytes)
    → xs ++ c ∷ name ≡ start ++ ending
    → Lacks c ending
    → (start' : Bytes) × (name ≡ start' ++ ending)
after_char c [] name [] ending e h = absurd (cc (has_char c [] name (subst (Lacks c) (sym e) h)))
after_char c [] name (b ∷ start) ending e h = (start, ap (drop 1) e)
after_char c (x ∷ xs) name [] ending e h =
    absurd (cc (has_char c (x ∷ xs) name (subst (Lacks c) (sym e) h)))
after_char c (x ∷ xs) name (b ∷ start) ending e h =
    after_char c xs name start ending (ap (drop 1) e) h

eq_of_iff : (a b : Bool) → (a ≡ true → b ≡ true) → (b ≡ true → a ≡ true) → a ≡ b
eq_of_iff true b f g = sym (f refl)
eq_of_iff false true f g = g refl
eq_of_iff false false f g = refl

-- Only the part behind a character that the ending lacks decides.
pub string_ends_with-name :
    (c : ℕ) (xs name ending : Bytes)
    → 0 < length ending
    → Lacks c ending
    → string_ends_with (xs ++ c ∷ name) ending ≡ string_ends_with name ending
string_ends_with-name c xs name ending o h =
    let whole = string_ends_with_lem (xs ++ c ∷ name) ending o in
    let part = string_ends_with_lem name ending o in
    eq_of_iff (string_ends_with (xs ++ c ∷ name) ending) (string_ends_with name ending)
      (λ t. part.1 (let (start, e) = whole.0 t in after_char c xs name start ending e h))
      (λ t. whole.1 (
        let (start, e) = part.0 t in
        (xs ++ (c ∷ start), rw e (sym (append_assoc xs (c ∷ start) ending)))))

pub path_slashfix_lem : (path : Bytes) → path_slashfix path ≡ path
unfolding path_slashfix
path_slashfix_lem [] = refl
path_slashfix_lem (b ∷ bs) = ground (arith, path_slashfix_lem bs)

abbrev pub IsPlain : Bytes → Type 0
IsPlain path = ((first_char path == b'/') ≡ false) × ((first_char path == backslash) ≡ false)

-- Where a path that starts with no separator is appended, one separator stands before it.
pub path_append-IsPlain :
    (path1 path2 : Bytes)
    → IsPlain path2
    → (start : Bytes) × (c : ℕ) × ((c ≡ b'/') ⊎ (c ≡ backslash))
      × (path_append path1 path2 ≡ start ++ c ∷ path2)
unfolding path_append
path_append-IsPlain path1 path2 (a, b) = elim (Bool-cases (string_ends_with path1 (b'/' ∷ []))) [
  | inl e ↦
      let (start, f) = (string_ends_with_lem path1 (b'/' ∷ []) (omega arith)).0 e in
      (
        start,
        b'/',
        inl refl,
        rw (e, a, b) (ap (◌++ path2) f ∙ append_assoc start (b'/' ∷ []) path2),
      )
  | inr e ↦ elim (Bool-cases (string_ends_with path1 (backslash ∷ []))) [
    | inl g ↦
        let (start, f) = (string_ends_with_lem path1 (backslash ∷ []) (omega arith)).0 g in
        (
          start,
          backslash,
          inr refl,
          rw (e, g, a, b) (ap (◌++ path2) f ∙ append_assoc start (backslash ∷ []) path2),
        )
    | inr g ↦ (path1, b'/', inl refl, rw (e, g, a, b) refl)
  ]
]

pub is_mlv_file-name :
    (c : ℕ) (start name : Bytes)
    → (c ≡ b'/') ⊎ (c ≡ backslash)
    → is_mlv_file (start ++ c ∷ name) ≡ is_mlv_file name
unfolding is_mlv_file
is_mlv_file-name c start name (inl e) =
    rw
      (
        e,
        string_ends_with-name b'/' start name upper_mlv (omega arith)
            (refl, (refl, (refl, (refl, tt)))),
        string_ends_with-name b'/' start name lower_mlv (omega arith)
            (refl, (refl, (refl, (refl, tt)))),
      )
      refl
is_mlv_file-name c start name (inr e) =
    rw
      (
        e,
        string_ends_with-name backslash start name upper_mlv (omega arith)
            (refl, (refl, (refl, (refl, tt)))),
        string_ends_with-name backslash start name lower_mlv (omega arith)
            (refl, (refl, (refl, (refl, tt)))),
      )
      refl

-- The folder in front does not decide whether a name is that of an MLV file.
pub is_mlv_file-path_append :
    (path1 path2 : Bytes)
    → IsPlain path2
    → is_mlv_file (path_append path1 path2) ≡ is_mlv_file path2
is_mlv_file-path_append path1 path2 h =
    let (start, c, sep, e) = path_append-IsPlain path1 path2 h in
    ap is_mlv_file e ∙ is_mlv_file-name c start path2 sep
