-- ===== src/Base/Writes.antt =====
-- What a buffer holds after a `memcpy` into it that stays inside.
use Prim.Native.Nat.{ℕ, zero, suc, ◌+◌, ◌-◌, ◌*◌, ◌/◌, ◌%◌, ◌^◌, ◌≤◌, ◌<◌}
use mathlib.Core.Path.{◌≡◌, refl, ap, ◌∙◌}
use mathlib.Core.List.{List, [], ◌∷◌}
use native.Mathlib.Nat.{pow-suc}
use native.Mathlib.Omega.{arith}
use mlvfs.Base.Lists.{length, take, drop, length-append, length-drop, All, All-append}
use mlvfs.Base.Files.{slice}
use mlvfs.Base.Words.{le_value, le_bytes}
use mlvfs.Base.Slices.{write_at, slice-append_left, slice-append_right}

pub length-write_at :
    (out : List ℕ) (p : ℕ) (bs : List ℕ)
    → p + length bs ≤ length out
    → length (write_at out p bs) ≡ length out
unfolding write_at
length-write_at out zero bs h =
    omega (arith, length-append bs (drop (length bs) out), length-drop (length bs) out)
length-write_at [] (suc p) bs h = refl
length-write_at (o ∷ os) (suc p) bs h = ap suc (length-write_at os p bs (omega arith))

-- The bytes that were written.
pub slice-write_at_self :
    (out : List ℕ) (p : ℕ) (bs : List ℕ) (i n : ℕ)
    → p ≤ length out
    → i + n ≤ length bs
    → slice (write_at out p bs) (p + i) n ≡ slice bs i n
unfolding write_at slice
slice-write_at_self out zero bs i n a b =
    let e : 0 + i ≡ i = omega arith in rw e (slice-append_left bs (drop (length bs) out) i n b)
slice-write_at_self [] (suc p) bs i n a b = absurd (omega arith)
slice-write_at_self (o ∷ os) (suc p) bs i n a b =
    let e : suc p + i ≡ suc (p + i) = omega arith in
    rw e (slice-write_at_self os p bs i n (omega arith) b)

-- The bytes before them.
pub slice-write_at_before :
    (out : List ℕ) (p : ℕ) (bs : List ℕ) (i n : ℕ)
    → p ≤ length out
    → i + n ≤ p
    → slice (write_at out p bs) i n ≡ slice out i n
unfolding write_at slice
slice-write_at_before out zero bs zero zero a b = refl
slice-write_at_before out zero bs zero (suc n) a b = absurd (omega arith)
slice-write_at_before out zero bs (suc i) n a b = absurd (omega arith)
slice-write_at_before [] (suc p) bs i n a b = absurd (omega arith)
slice-write_at_before (o ∷ os) (suc p) bs zero zero a b = refl
slice-write_at_before (o ∷ os) (suc p) bs zero (suc n) a b =
    ap (◌∷◌ o) (slice-write_at_before os p bs zero n (omega arith) (omega arith))
slice-write_at_before (o ∷ os) (suc p) bs (suc i) n a b =
    slice-write_at_before os p bs i n (omega arith) (omega arith)

drop_nil : (k : ℕ) → drop k (take 0 (zero ∷ [])) ≡ []
drop_nil zero = refl
drop_nil (suc k) = refl

slice-drop :
    (bs out : List ℕ) (i n : ℕ)
    → length bs ≤ i
    → slice (drop (length bs) out) (i - length bs) n ≡ slice out i n
unfolding slice
slice-drop [] out i n h = let e : i - 0 ≡ i = omega arith in rw e refl
slice-drop (b ∷ bs) out zero n h = absurd (omega arith)
slice-drop (b ∷ bs) [] (suc i) n h = ground (arith, drop_nil (i - length bs))
slice-drop (b ∷ bs) (o ∷ os) (suc i) n h =
    let e : suc i - suc (length bs) ≡ i - length bs = omega arith in
    rw e (slice-drop bs os i n (omega arith))

-- The bytes behind them.
pub slice-write_at_after :
    (out : List ℕ) (p : ℕ) (bs : List ℕ) (i n : ℕ)
    → p ≤ length out
    → p + length bs ≤ i
    → slice (write_at out p bs) i n ≡ slice out i n
unfolding write_at slice
slice-write_at_after out zero bs i n a b =
    slice-append_right bs (drop (length bs) out) i n (omega arith)
    ∙ slice-drop bs out i n (omega arith)
slice-write_at_after [] (suc p) bs i n a b = absurd (omega arith)
slice-write_at_after (o ∷ os) (suc p) bs zero n a b = absurd (omega arith)
slice-write_at_after (o ∷ os) (suc p) bs (suc i) n a b =
    slice-write_at_after os p bs i n (omega arith) (omega arith)

abbrev pub IsBytes : List ℕ → Type 0
IsBytes = All (λ (b : ℕ). b < 256)

pub take-IsBytes : (n : ℕ) (bs : List ℕ) → IsBytes bs → IsBytes (take n bs)
take-IsBytes zero bs h = tt
take-IsBytes (suc n) [] h = tt
take-IsBytes (suc n) (b ∷ bs) h = (h.0, take-IsBytes n bs h.1)

pub drop-IsBytes : (n : ℕ) (bs : List ℕ) → IsBytes bs → IsBytes (drop n bs)
drop-IsBytes zero bs h = h
drop-IsBytes (suc n) [] h = tt
drop-IsBytes (suc n) (b ∷ bs) h = drop-IsBytes n bs h.1

pub slice-IsBytes : (bs : List ℕ) (i n : ℕ) → IsBytes bs → IsBytes (slice bs i n)
unfolding slice
slice-IsBytes bs i n h = take-IsBytes n (drop i bs) (drop-IsBytes i bs h)

pub write_at-IsBytes :
    (out : List ℕ) (p : ℕ) (bs : List ℕ) → IsBytes out → IsBytes bs → IsBytes (write_at out p bs)
unfolding write_at
write_at-IsBytes out zero bs a b =
    All-append (λ (c : ℕ). c < 256) bs (drop (length bs) out) b (drop-IsBytes (length bs) out a)
write_at-IsBytes [] (suc p) bs a b = tt
write_at-IsBytes (o ∷ os) (suc p) bs a b = (a.0, write_at-IsBytes os p bs a.1 b)

pub le_bytes-IsBytes : (n v : ℕ) → IsBytes (le_bytes n v)
unfolding le_bytes
le_bytes-IsBytes zero v = tt
le_bytes-IsBytes (suc n) v = (omega arith, le_bytes-IsBytes n (v / 256))

-- A word in memory is below the power of its size.
pub le_value-bound : (n : ℕ) (bs : List ℕ) → IsBytes bs → length bs ≤ n → le_value bs < 256 ^ n
unfolding le_value
le_value-bound zero [] h l = omega arith
le_value-bound zero (b ∷ bs) h l = absurd (omega arith)
le_value-bound (suc n) [] h l = omega (arith, pow-suc 256 n, le_value-bound n [] tt (omega arith))
le_value-bound (suc n) (b ∷ bs) h l =
    let first : b < 256 = h.0 in omega (arith, pow-suc 256 n, le_value-bound n bs h.1 (omega arith))

-- Bytes that are read as a word stand at the start of that word in memory.
pub le_bytes-le_value :
    (n : ℕ) (bs : List ℕ)
    → IsBytes bs
    → length bs ≤ n
    → take (length bs) (le_bytes n (le_value bs)) ≡ bs
unfolding le_value le_bytes
le_bytes-le_value n [] h l = refl
le_bytes-le_value zero (b ∷ bs) h l = absurd (omega arith)
le_bytes-le_value (suc n) (b ∷ bs) h l =
    let first : b < 256 = h.0 in
    let e : (b + 256 * le_value bs) % 256 ≡ b = omega arith in
    let d : (b + 256 * le_value bs) / 256 ≡ le_value bs = omega arith in
    rw (e, d) (ap (◌∷◌ b) (le_bytes-le_value n bs h.1 (omega arith)))
