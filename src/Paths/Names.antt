-- ===== src/Paths/Names.antt =====
-- Paths as lists of names, and the MLV file among them.
use mlvfs.Base.{
  ◌≤◌, ◌<◌, ◌≡◌, refl, ap, sym, ◌∙◌, false, Option, none, some, List, [], ◌∷◌, ◌++◌, length,
  length-append, append_assoc, ◌==◌, if◌then◌else◌, Bytes, arith, All,
}
use mlvfs.Paths.{
  first_char, backslash, dir_sep_char, find_first_separator, skip_separators, is_mlv_file,
}
use mlvfs.Paths.Endings.{Lacks, IsPlain}

-- A name is not empty and holds neither a slash nor a backslash.
abbrev pub IsName : Bytes → Type 0
IsName name = (0 < length name) × Lacks b'/' name × Lacks backslash name

abbrev pub join : List Bytes → Bytes
join [] = []
join (n ∷ []) = n
join (n ∷ m ∷ ns) = n ++ dir_sep_char ∷ join (m ∷ ns)

-- The names up to the first that is an MLV file, and the others.
unfoldable pub split_mlv : List Bytes → Option (List Bytes × List Bytes)
split_mlv [] = none
split_mlv (n ∷ ns) =
    let rest : Option (List Bytes × List Bytes) = elim (split_mlv ns) [
      | none ↦ none
      | some (a, b) ↦ some (n ∷ a, b)
    ] in
    if is_mlv_file n then some (n ∷ [], ns) else rest

pub find_first_separator-append :
    (name rest : Bytes)
    → Lacks b'/' name
    → find_first_separator (name ++ b'/' ∷ rest) ≡ some (length name)
unfolding find_first_separator
find_first_separator-append [] rest h = refl
find_first_separator-append (b ∷ bs) rest h = rw (h.0, find_first_separator-append bs rest h.1) refl

pub find_first_separator-Lacks : (name : Bytes) → Lacks b'/' name → find_first_separator name ≡ none
unfolding find_first_separator
find_first_separator-Lacks [] h = refl
find_first_separator-Lacks (b ∷ bs) h = rw (h.0, find_first_separator-Lacks bs h.1) refl

-- What starts with no slash has none to skip.
pub skip_separators-plain :
    (path : Bytes) → (first_char path == b'/') ≡ false → skip_separators path ≡ path
unfolding skip_separators
skip_separators-plain [] h = refl
skip_separators-plain (b ∷ bs) h = rw h refl

first_char-append :
    (name rest : Bytes) → 0 < length name → first_char (name ++ rest) ≡ first_char name
first_char-append [] rest h = absurd (omega arith)
first_char-append (b ∷ bs) rest h = refl

IsName-IsPlain : (name : Bytes) → IsName name → IsPlain name
IsName-IsPlain [] h = absurd (omega (arith, h.0))
IsName-IsPlain (b ∷ bs) h = (h.1.0, h.2.0)

pub join-IsPlain : (ns : List Bytes) → All IsName ns → IsPlain (join ns)
join-IsPlain [] h = (refl, refl)
join-IsPlain (n ∷ []) h = IsName-IsPlain n h.0
join-IsPlain (n ∷ m ∷ ns) h =
    let p = IsName-IsPlain n h.0 in rw (first_char-append n (b'/' ∷ join (m ∷ ns)) (h.0).0) p

pub length-join_pos :
    (n : Bytes) (ns : List Bytes) → IsName n → (length (join (n ∷ ns)) == 0) ≡ false
length-join_pos n [] h = ground (arith, h.0)
length-join_pos n (m ∷ ns) h = ground (arith, h.0, length-append n (b'/' ∷ join (m ∷ ns)))

-- One more name.
pub join-snoc :
    (ns : List Bytes) (n : Bytes) → 0 < length ns → join (ns ++ n ∷ []) ≡ join ns ++ b'/' ∷ n
join-snoc [] n h = absurd (omega arith)
join-snoc (a ∷ []) n h = refl
join-snoc (a ∷ b ∷ ns) n h =
    ap (λ (x : Bytes). a ++ b'/' ∷ x) (join-snoc (b ∷ ns) n (omega arith))
    ∙ sym (append_assoc a (b'/' ∷ join (b ∷ ns)) (b'/' ∷ n))

pub length-join : (ns : List Bytes) → All IsName ns → length ns ≤ length (join ns)
length-join [] h = omega arith
length-join (n ∷ []) h = omega (arith, (h.0).0)
length-join (n ∷ m ∷ ns) h =
    omega (arith, (h.0).0, length-append n (b'/' ∷ join (m ∷ ns)), length-join (m ∷ ns) h.1)
