-- ===== src/FrameNumber.antt =====
-- The names of the DNG files of mlvfs/main.c: `mlvfs_readdir` writes a frame's number into the
-- name, and `get_mlv_frame_number` parses it.
mod Tests
use mlvfs.Base.{
  ℕ, zero, suc, ◌+◌, ◌-◌, ◌*◌, ◌/◌, ◌%◌, ◌≤◌, ◌<◌, ◌≡◌, refl, ap, sym, ◌∙◌, Bool, true, false, ◌&&◌,
  ◌||◌, Option, none, some, List, [], ◌∷◌, ◌++◌, length, length-append, ltb, leb, ◌==◌,
  if◌then◌else◌, arith, Bytes, slice, slice-append, append_assoc, IsBytes, Bool-cases, inl, inr,
  All-append,
}

-- An `int` by its sign.
pub data Number : Type 0 where
  plus : ℕ → Number
  minus : ℕ → Number

abbrev pub is_digit : ℕ → Bool
is_digit b = leb b'0' b && leb b b'9'

-- `atoi` of the C library, on a string whose number fits an `int`.
unfoldable pub atoi_digits : ℕ → Bytes → ℕ
atoi_digits acc [] = acc
atoi_digits acc (b ∷ bs) =
    let rest = atoi_digits (acc * 10 + (b - b'0')) bs in if is_digit b then rest else acc

unfoldable pub atoi : Bytes → Number
atoi [] = plus 0
atoi (b ∷ bs) =
    let rest = atoi bs in
    if b == 32 || (leb 9 b && leb b 13)
    then rest
    else if b == b'-'
    then minus (atoi_digits 0 bs)
    else if b == b'+'
    then plus (atoi_digits 0 bs)
    else plus (atoi_digits 0 (b ∷ bs))

-- `strrchr(path, '.')`, as an index.
unfoldable pub last_dot : Bytes → Option ℕ
last_dot [] = none
last_dot (b ∷ bs) = elim (last_dot bs) [
  | some i ↦ some (suc i)
  | none ↦ if b == b'.' then some 0 else none
]

-- A path without a dot has a null pointer here, which is not behind `temp + 6`.
unfoldable pub get_mlv_frame_number : Bytes → Number
get_mlv_frame_number path = elim (last_dot path) [
  | none ↦ plus 0
  | some dot ↦ if ltb 6 dot then atoi (slice path (dot - 6) 6) else plus 0
]

-- The digits of a number of at most `k` digits, the first one first, and none for 0.
unfoldable pub more_digits : ℕ → ℕ → Bytes
more_digits zero n = []
more_digits (suc k) n =
    let rest = more_digits k (n / 10) in if n == 0 then [] else rest ++ (b'0' + n % 10) ∷ []

abbrev pub last_six : ℕ → Bytes
last_six i =
    (b'0' + i / 100000 % 10)
    ∷ (b'0' + i / 10000 % 10)
    ∷ (b'0' + i / 1000 % 10)
    ∷ (b'0' + i / 100 % 10)
    ∷ (b'0' + i / 10 % 10)
    ∷ (b'0' + i % 10)
    ∷ []

-- `"%06d"` of an `int` that is not negative: six digits, and those before them.
unfoldable pub six_digits : ℕ → Bytes
six_digits i = more_digits 10 (i / 1000000) ++ last_six i

-- `"%s_%06d.dng"`.
unfoldable pub dng_name : Bytes → ℕ → Bytes
dng_name mlv_basename i =
    (mlv_basename ++ b'_' ∷ []) ++ (six_digits i ++ b'.' ∷ b'd' ∷ b'n' ∷ b'g' ∷ [])

last_dot-append : (xs : Bytes) → last_dot (xs ++ b'.' ∷ b'd' ∷ b'n' ∷ b'g' ∷ []) ≡ some (length xs)
unfolding last_dot
last_dot-append [] = refl
last_dot-append (x ∷ xs) = rw (last_dot-append xs) refl

pub atoi_digits-digit :
    (acc d : ℕ) (bs : Bytes)
    → d < 10
    → atoi_digits acc ((48 + d) ∷ bs) ≡ atoi_digits (acc * 10 + d) bs
unfolding atoi_digits
atoi_digits-digit acc d bs h =
    let e : 48 + d - 48 ≡ d = omega arith in
    let a : leb 48 (48 + d) ≡ true = ground arith in
    let b : leb (48 + d) 57 ≡ true = ground arith in rw (e, a, b) refl

atoi-digit :
    (d : ℕ) (bs : Bytes) → d < 10 → atoi ((48 + d) ∷ bs) ≡ plus (atoi_digits 0 ((48 + d) ∷ bs))
unfolding atoi
atoi-digit d bs h =
    let a : ((48 + d) == 32) ≡ false = ground arith in
    let b : leb (48 + d) 13 ≡ false = ground arith in
    let c : leb 9 (48 + d) ≡ true = ground arith in
    let e : ((48 + d) == 45) ≡ false = ground arith in
    let f : ((48 + d) == 43) ≡ false = ground arith in rw (a, b, c, e, f) refl

pub more_digits_none : (k n : ℕ) → n ≡ 0 → more_digits k n ≡ []
unfolding more_digits
more_digits_none zero n h = refl
more_digits_none (suc k) n h = ground arith

pub length-more_digits : (k n : ℕ) → length (more_digits k n) ≤ k
unfolding more_digits
length-more_digits zero n = omega arith
length-more_digits (suc k) n = ground (
  arith,
  length-more_digits k (n / 10),
  length-append (more_digits k (n / 10)) ((b'0' + n % 10) ∷ []),
)

pub more_digits-IsBytes : (k n : ℕ) → IsBytes (more_digits k n)
unfolding more_digits
more_digits-IsBytes zero n = tt
more_digits-IsBytes (suc k) n = elim (Bool-cases (n == 0)) [
  | inl e ↦ rw e tt
  | inr e ↦ rw e (
      All-append (λ (b : ℕ). b < 256) (more_digits k (n / 10)) ((b'0' + n % 10) ∷ [])
        (more_digits-IsBytes k (n / 10)) (omega arith, tt))
]

six_digits-last_six : (i : ℕ) → i < 1000000 → six_digits i ≡ last_six i
unfolding six_digits
six_digits-last_six i h = ap (◌++ last_six i) (more_digits_none 10 (i / 1000000) (omega arith))

atoi-last_six : (i : ℕ) → i < 1000000 → atoi (last_six i) ≡ plus i
atoi-last_six i h =
    let d5 = i / 100000 % 10 in
    let d4 = i / 10000 % 10 in
    let d3 = i / 1000 % 10 in
    let d2 = i / 100 % 10 in
    let d1 = i / 10 % 10 in
    let d0 = i % 10 in
    let value : (((((0 * 10 + d5) * 10 + d4) * 10 + d3) * 10 + d2) * 10 + d1) * 10 + d0 ≡ i =
      omega arith in
    atoi-digit d5 _ (omega arith)
    ∙ ap plus (
        atoi_digits-digit 0 d5 _ (omega arith)
        ∙ atoi_digits-digit _ d4 _ (omega arith)
        ∙ atoi_digits-digit _ d3 _ (omega arith)
        ∙ atoi_digits-digit _ d2 _ (omega arith)
        ∙ atoi_digits-digit _ d1 _ (omega arith)
        ∙ atoi_digits-digit _ d0 [] (omega arith)
        ∙ (unfold atoi_digits in value))

get_mlv_frame_number-dot :
    (path : Bytes) (dot : ℕ)
    → last_dot path ≡ some dot
    → get_mlv_frame_number path ≡ (if ltb 6 dot then atoi (slice path (dot - 6) 6) else plus 0)
unfolding get_mlv_frame_number
get_mlv_frame_number-dot path dot e = rw (e, get_mlv_frame_number) refl

-- The number of a frame below 1000000 is found again in the name that is listed for it, whatever
-- the recording is called.
pub get_mlv_frame_number-dng_name :
    (mlv_basename : Bytes) (i : ℕ)
    → i < 1000000
    → get_mlv_frame_number (dng_name mlv_basename i) ≡ plus i
unfolding dng_name
get_mlv_frame_number-dng_name mlv_basename i h =
    let start = mlv_basename ++ b'_' ∷ [] in
    let digits = last_six i in
    let tail : Bytes = b'.' ∷ b'd' ∷ b'n' ∷ b'g' ∷ [] in
    let same : six_digits i ≡ digits = six_digits-last_six i h in
    let six : length digits ≡ 6 = refl in
    let joined : start ++ (digits ++ tail) ≡ (start ++ digits) ++ tail =
      sym (append_assoc start digits tail) in
    let dot : last_dot (start ++ (digits ++ tail)) ≡ some (length (start ++ digits)) =
      ap last_dot joined ∙ last_dot-append (start ++ digits) in
    let n : length (start ++ digits) ≡ length start + 6 =
      omega (arith, length-append start digits, six) in
    let far : ltb 6 (length (start ++ digits)) ≡ true =
      ground (arith, n, length-append mlv_basename (b'_' ∷ [])) in
    let at : length (start ++ digits) - 6 ≡ length start = omega (arith, n) in
    let found : slice (start ++ (digits ++ tail)) (length start) 6 ≡ digits =
      slice-append start digits tail (length start) 6 refl six in
    ap (λ (b : Bytes). get_mlv_frame_number (start ++ (b ++ tail))) same
    ∙ get_mlv_frame_number-dot (start ++ (digits ++ tail)) (length (start ++ digits)) dot
    ∙ (rw (far, at, found) (atoi-last_six i h))
