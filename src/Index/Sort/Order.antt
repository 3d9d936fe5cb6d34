-- ===== src/Index/Sort/Order.antt =====
-- Tables in ascending order of time, and the rows of one time.
use mlvfs.Base.{
  ℕ, ◌≤◌, ◌≡◌, refl, false, List, [], ◌∷◌, ◌++◌, ◌==◌, if◌then◌else◌, arith, length, ltb,
}
use mlvfs.Index.Row.{FrameXref}

-- No row of the table is earlier than `t`.
abbrev pub AllFrom : ℕ → List FrameXref → Type 0
AllFrom t [] = Unit {0}
AllFrom t (x ∷ xs) = (t ≤ x.frame_time) × AllFrom t xs

abbrev pub IsSorted : List FrameXref → Type 0
IsSorted [] = Unit {0}
IsSorted (x ∷ xs) = AllFrom x.frame_time xs × IsSorted xs

-- No row of the first table is later than a row of the second.
abbrev pub AllBefore : List FrameXref → List FrameXref → Type 0
AllBefore [] ys = Unit {0}
AllBefore (x ∷ xs) ys = AllFrom x.frame_time ys × AllBefore xs ys

-- The rows of time `t`, in order.
abbrev pub rows_at : ℕ → List FrameXref → List FrameXref
rows_at t [] = []
rows_at t (x ∷ xs) = if x.frame_time == t then x ∷ rows_at t xs else rows_at t xs

pub AllFrom-le : (s t : ℕ) (xs : List FrameXref) → s ≤ t → AllFrom t xs → AllFrom s xs
AllFrom-le s t [] h a = tt
AllFrom-le s t (x ∷ xs) h a = (omega arith, AllFrom-le s t xs h a.1)

pub AllFrom-append :
    (t : ℕ) (xs ys : List FrameXref) → AllFrom t xs → AllFrom t ys → AllFrom t (xs ++ ys)
AllFrom-append t [] ys a b = b
AllFrom-append t (x ∷ xs) ys a b = (a.0, AllFrom-append t xs ys a.1 b)

pub IsSorted-append :
    (xs ys : List FrameXref) → IsSorted xs → IsSorted ys → AllBefore xs ys → IsSorted (xs ++ ys)
IsSorted-append [] ys a b h = b
IsSorted-append (x ∷ xs) ys a b h =
    (AllFrom-append x.frame_time xs ys a.0 h.0, IsSorted-append xs ys a.1 b h.1)

pub AllBefore-append_left :
    (xs ys zs : List FrameXref) → AllBefore xs zs → AllBefore ys zs → AllBefore (xs ++ ys) zs
AllBefore-append_left [] ys zs a b = b
AllBefore-append_left (x ∷ xs) ys zs a b = (a.0, AllBefore-append_left xs ys zs a.1 b)

pub AllBefore-append :
    (xs ys zs : List FrameXref) → AllBefore xs ys → AllBefore xs zs → AllBefore xs (ys ++ zs)
AllBefore-append [] ys zs a b = tt
AllBefore-append (x ∷ xs) ys zs a b =
    (AllFrom-append x.frame_time ys zs a.0 b.0, AllBefore-append xs ys zs a.1 b.1)

pub AllBefore-split :
    (xs ys zs : List FrameXref) → AllBefore (xs ++ ys) zs → AllBefore xs zs × AllBefore ys zs
AllBefore-split [] ys zs h = (tt, h)
AllBefore-split (x ∷ xs) ys zs h = let r = AllBefore-split xs ys zs h.1 in ((h.0, r.0), r.1)

pub rows_at-append :
    (t : ℕ) (xs ys : List FrameXref) → rows_at t (xs ++ ys) ≡ rows_at t xs ++ rows_at t ys
rows_at-append t [] ys = refl
rows_at-append t (x ∷ xs) ys = ground (arith, rows_at-append t xs ys)

pub AllBefore-nil : (xs : List FrameXref) → AllBefore xs []
AllBefore-nil [] = tt
AllBefore-nil (x ∷ xs) = (tt, AllBefore-nil xs)

pub IsSorted-short : (xs : List FrameXref) → ltb 1 (length xs) ≡ false → IsSorted xs
IsSorted-short [] h = tt
IsSorted-short (x ∷ []) h = (tt, tt)
IsSorted-short (x ∷ y ∷ xs) h = absurd (ground arith)
