-- ===== src/Base/Files.antt =====
-- Files as byte sequences, and `fread` at a position.
use Prim.Native.Nat.{ℕ, zero, suc, ◌+◌, ◌≤◌, ◌<◌}
use mathlib.Core.Path.{◌≡◌, refl, ap}
use mathlib.Core.Bool.{◌&&◌}
use mathlib.Core.List.{List, [], ◌∷◌, ◌++◌}
use mathlib.Core.Option.{Option, none, some}
use native.Mathlib.Omega.{arith}
use mlvfs.Base.Tests.{ltb, leb, if◌then◌else◌}
use mlvfs.Base.Lists.{length, take, drop, length-append, length-take, length-drop}

-- `fread(buffer, n, 1, file)` with the file at `pos`: the bytes read, or a short count. A read of
-- no bytes returns a count of 0, as a failure does.
unfoldable pub read_at : List ℕ → ℕ → ℕ → Option (List ℕ)
read_at f pos n = if ltb 0 n && leb (pos + n) (length f) then some (take n (drop pos f)) else none

-- `n` bytes at `pos`, as far as they are there.
unfoldable pub slice : List ℕ → ℕ → ℕ → List ℕ
slice f pos n = take n (drop pos f)

pub read_at-le :
    (f : List ℕ) (pos n : ℕ) (bs : List ℕ) → read_at f pos n ≡ some bs → pos + n ≤ length f
unfolding read_at
read_at-le f pos n bs h = ground arith

module _ {ℓ} {A : Type ℓ} where
  pub take-append : (xs ys : List A) → take (length xs) (xs ++ ys) ≡ xs
  take-append [] ys = refl
  take-append (x ∷ xs) ys = ap (◌∷◌ x) (take-append xs ys)

  pub drop-append : (xs ys : List A) → drop (length xs) (xs ++ ys) ≡ ys
  drop-append [] ys = refl
  drop-append (x ∷ xs) ys = drop-append xs ys

-- A read of the middle part of a file.
pub read_at-append :
    (xs ys zs : List ℕ)
    → 0 < length ys
    → read_at (xs ++ (ys ++ zs)) (length xs) (length ys) ≡ some ys
unfolding read_at
read_at-append xs ys zs h = ground (
  arith,
  length-append xs (ys ++ zs),
  length-append ys zs,
  drop-append xs (ys ++ zs),
  take-append ys zs,
)

pub read_at_end : (f : List ℕ) (n : ℕ) → read_at f (length f) n ≡ none
unfolding read_at
read_at_end f n = ground arith

-- A field behind `n` bytes.
pub slice-append :
    (xs ys zs : List ℕ) (n k : ℕ)
    → length xs ≡ n
    → length ys ≡ k
    → slice (xs ++ (ys ++ zs)) n k ≡ ys
unfolding slice
slice-append xs ys zs n k a b = rw (← a, ← b, drop-append xs (ys ++ zs)) (take-append ys zs)

-- A field of a prefix that holds it.
pub slice-take : (n i k : ℕ) (xs : List ℕ) → i + k ≤ n → slice (take n xs) i k ≡ slice xs i k
unfolding slice
slice-take zero zero zero xs h = refl
slice-take zero zero (suc k) xs h = absurd (omega arith)
slice-take zero (suc i) k xs h = absurd (omega arith)
slice-take (suc n) zero zero xs h = refl
slice-take (suc n) zero (suc k) [] h = refl
slice-take (suc n) zero (suc k) (x ∷ xs) h =
    ap (◌∷◌ x) (unfold slice in slice-take n zero k xs (omega arith))
slice-take (suc n) (suc i) k [] h = refl
slice-take (suc n) (suc i) k (x ∷ xs) h = slice-take n i k xs (omega arith)

pub length-slice : (bs : List ℕ) (i n : ℕ) → i + n ≤ length bs → length (slice bs i n) ≡ n
unfolding slice
length-slice bs i n h = omega (arith, length-take n (drop i bs), length-drop i bs)

-- Reading behind a prefix is reading what follows it.
pub read_at-prefix : (xs ys : List ℕ) (n : ℕ) → read_at (xs ++ ys) (length xs) n ≡ read_at ys 0 n
unfolding read_at
read_at-prefix xs ys n = ground (arith, length-append xs ys, drop-append xs ys)

pub read_at_start : (f : List ℕ) (n : ℕ) → 0 < n → n ≤ length f → read_at f 0 n ≡ some (take n f)
unfolding read_at
read_at_start f n o h = ground arith

pub take_all {ℓ} : {A : Type ℓ} (xs : List A) → take (length xs) xs ≡ xs
take_all [] = refl
take_all (x ∷ xs) = ap (◌∷◌ x) (take_all xs)

pub read_at-pos : (f : List ℕ) (pos n : ℕ) (bs : List ℕ) → read_at f pos n ≡ some bs → 0 < n
unfolding read_at
read_at-pos f pos n bs h = ground arith

pub read_at-slice :
    (f : List ℕ) (pos n : ℕ) (bs : List ℕ) → read_at f pos n ≡ some bs → slice f pos n ≡ bs
unfolding read_at slice
read_at-slice f pos n bs h = ground arith
