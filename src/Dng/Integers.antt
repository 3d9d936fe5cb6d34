-- ===== src/Dng/Integers.antt =====
-- The signed 32-bit integers that mlvfs/dng.c compares and divides, written by their values
-- modulo 2 ^ 32.
use mlvfs.Base.{ℕ, ◌+◌, ◌-◌, ◌*◌, ◌/◌, ◌%◌, ◌^◌, Bool, not, ◌&&◌, ◌||◌, leb, ltb, if◌then◌else◌}

unfoldable pub is_negative : ℕ → Bool
is_negative a = leb (2 ^ 31) a

unfoldable pub magnitude : ℕ → ℕ
magnitude a = if is_negative a then 2 ^ 32 - a else a

unfoldable pub sub_int : ℕ → ℕ → ℕ
sub_int a b = (a + (2 ^ 32 - b)) % 2 ^ 32

-- `a < n` and `a <= n` for a literal `n`.
unfoldable pub int_below : ℕ → ℕ → Bool
int_below a n = is_negative a || ltb a n

unfoldable pub int_at_most : ℕ → ℕ → Bool
int_at_most a n = is_negative a || leb a n

-- `(double)a / (double)b > 2.0`: a quotient that is not above 2 is not rounded to one that is, and
-- one that is above 2 is so by at least 2 ^ -31. With `b` zero it is an infinity, or not a number.
unfoldable pub above_twice : ℕ → ℕ → Bool
above_twice a b =
    if is_negative b
    then is_negative a && ltb (2 * magnitude b) (magnitude a)
    else not (is_negative a) && ltb (2 * b) a

-- `a / n` for a literal `n`, rounded towards zero.
unfoldable pub div_int : ℕ → ℕ → ℕ
div_int a n = if is_negative a then (2 ^ 32 - (2 ^ 32 - a) / n) % 2 ^ 32 else a / n
