-- ===== src/Base/Slices.antt =====
-- Parts of joined byte strings, and writes into a buffer.
use Prim.Native.Nat.{ℕ, zero, suc, ◌+◌, ◌-◌, ◌≤◌}
use mathlib.Core.Path.{◌≡◌, refl, ap, ◌∙◌}
use mathlib.Core.List.{List, [], ◌∷◌, ◌++◌, append_assoc}
use native.Mathlib.Omega.{arith}
use mlvfs.Base.Lists.{length, take, drop, length-append}
use mlvfs.Base.Files.{slice, slice-take}

-- `memcpy(&out[pos], bs, length bs)`, as far as the buffer reaches up to `pos`.
unfoldable pub write_at : List ℕ → ℕ → List ℕ → List ℕ
write_at out zero bs = bs ++ drop (length bs) out
write_at [] (suc pos) bs = []
write_at (o ∷ os) (suc pos) bs = o ∷ write_at os pos bs

drop-drop : (a b : ℕ) (xs : List ℕ) → drop b (drop a xs) ≡ drop (a + b) xs
drop-drop zero b xs = ground arith
drop-drop (suc a) zero [] = let e : suc a + 0 ≡ suc a = omega arith in rw e refl
drop-drop (suc a) (suc b) [] = let e : suc a + suc b ≡ suc (a + suc b) = omega arith in rw e refl
drop-drop (suc a) b (x ∷ xs) =
    let e : suc a + b ≡ suc (a + b) = omega arith in rw e (drop-drop a b xs)

write_at-prefix :
    (xs out ys : List ℕ) → write_at (xs ++ out) (length xs) ys ≡ xs ++ write_at out 0 ys
unfolding write_at
write_at-prefix [] out ys = refl
write_at-prefix (x ∷ xs) out ys = ap (◌∷◌ x) (write_at-prefix xs out ys)

-- Two writes side by side are one.
pub write_at-write_at :
    (out : List ℕ) (a : ℕ) (xs ys : List ℕ)
    → write_at (write_at out a xs) (a + length xs) ys ≡ write_at out a (xs ++ ys)
unfolding write_at
write_at-write_at out zero xs ys =
    let e : 0 + length xs ≡ length xs = omega arith in
    let l : length (xs ++ ys) ≡ length xs + length ys = length-append xs ys in
    rw (e, l, append_assoc xs ys)
      (write_at-prefix xs (drop (length xs) out) ys
        ∙ ap (λ (zs : List ℕ). xs ++ (ys ++ zs)) (drop-drop (length xs) (length ys) out))
write_at-write_at [] (suc a) xs ys =
    let e : suc a + length xs ≡ suc (a + length xs) = omega arith in rw e refl
write_at-write_at (o ∷ os) (suc a) xs ys =
    let e : suc a + length xs ≡ suc (a + length xs) = omega arith in
    rw e (ap (◌∷◌ o) (write_at-write_at os a xs ys))

pub slice-append_right :
    (xs ys : List ℕ) (i n : ℕ) → length xs ≤ i → slice (xs ++ ys) i n ≡ slice ys (i - length xs) n
unfolding slice
slice-append_right [] ys i n h = ground arith
slice-append_right (x ∷ xs) ys zero n h = absurd (omega arith)
slice-append_right (x ∷ xs) ys (suc i) n h =
    let e : suc i - suc (length xs) ≡ i - length xs = omega arith in
    rw e (slice-append_right xs ys i n (omega arith))

take-append_left : (n : ℕ) (xs ys : List ℕ) → n ≤ length xs → take n (xs ++ ys) ≡ take n xs
take-append_left zero xs ys h = refl
take-append_left (suc n) [] ys h = absurd (omega arith)
take-append_left (suc n) (x ∷ xs) ys h = ap (◌∷◌ x) (take-append_left n xs ys (omega arith))

pub slice-append_left :
    (xs ys : List ℕ) (i n : ℕ) → i + n ≤ length xs → slice (xs ++ ys) i n ≡ slice xs i n
unfolding slice
slice-append_left xs ys zero n h = take-append_left n xs ys (omega arith)
slice-append_left [] ys (suc i) n h = absurd (omega arith)
slice-append_left (x ∷ xs) ys (suc i) n h = slice-append_left xs ys i n (omega arith)

take-append_right :
    (n : ℕ) (xs ys : List ℕ)
    → length xs ≤ n
    → take n (xs ++ ys) ≡ take (length xs) xs ++ take (n - length xs) ys
take-append_right n [] ys h = ground arith
take-append_right zero (x ∷ xs) ys h = absurd (omega arith)
take-append_right (suc n) (x ∷ xs) ys h =
    let e : suc n - suc (length xs) ≡ n - length xs = omega arith in
    rw e (ap (◌∷◌ x) (take-append_right n xs ys (omega arith)))

pub slice-append_across :
    (xs ys : List ℕ) (i n : ℕ)
    → i ≤ length xs
    → length xs - i ≤ n
    → slice (xs ++ ys) i n ≡ slice xs i (length xs - i) ++ slice ys 0 (n - (length xs - i))
unfolding slice
slice-append_across xs ys zero n h l =
    let e : length xs - 0 ≡ length xs = omega arith in
    rw e (take-append_right n xs ys (omega arith))
slice-append_across [] ys (suc i) n h l = absurd (omega arith)
slice-append_across (x ∷ xs) ys (suc i) n h l =
    let e : suc (length xs) - suc i ≡ length xs - i = omega arith in
    rw e (slice-append_across xs ys i n (omega arith) (omega arith))

take-take : (a b : ℕ) (xs : List ℕ) → a ≤ b → take a (take b xs) ≡ take a xs
take-take zero b xs h = refl
take-take (suc a) zero xs h = absurd (omega arith)
take-take (suc a) (suc b) [] h = refl
take-take (suc a) (suc b) (x ∷ xs) h = ap (◌∷◌ x) (take-take a b xs (omega arith))

pub slice-slice :
    (f : List ℕ) (d n o t : ℕ) → o + t ≤ n → slice (slice f d n) o t ≡ slice f (d + o) t
unfolding slice
slice-slice f d n o t h = slice-take n o t (drop d f) h ∙ ap (take t) (drop-drop d o f)
