-- ===== src/Cache/Update.antt =====
-- Writes through a buffer's pointer, and lookups by name after them.
use mlvfs.Base.{
  ℕ, zero, suc, ◌≤◌, ◌-◌, drop, ◌≡◌, refl, inl, inr, false, none, some, List, [], ◌∷◌, ◌++◌, length,
  ◌==◌, arith, Bytes, bytes_eq, eq_of_bytes_eq, bytes_eq_refl, Bool-cases,
}
use mlvfs.Cache.{ImageBuffer, get_image_buffer, update}
use mlvfs.Cache.Cleanup.{Ascending, Ascending-bound, drop_unused, kept}

-- No two buffers of the cache have one name.
abbrev pub Distinct : List ImageBuffer → Type 0
Distinct [] = Unit {0}
Distinct (b ∷ bs) = (get_image_buffer b.dng_filename bs ≡ none) × Distinct bs

pub get_image_buffer-name :
    (path : Bytes) (bs : List ImageBuffer) (b : ImageBuffer)
    → get_image_buffer path bs ≡ some b
    → b.dng_filename ≡ path
unfolding get_image_buffer
get_image_buffer-name path [] b e = cc
get_image_buffer-name path (x ∷ xs) b e =
    ground (arith, get_image_buffer-name path xs b, eq_of_bytes_eq x.dng_filename path)

pub get_image_buffer-address :
    (path : Bytes) (lo hi : ℕ) (bs : List ImageBuffer) (b : ImageBuffer)
    → Ascending lo bs hi
    → get_image_buffer path bs ≡ some b
    → lo ≤ b.address
unfolding get_image_buffer
get_image_buffer-address path lo hi [] b a e = cc
get_image_buffer-address path lo hi (x ∷ xs) b a e =
    ground (arith, get_image_buffer-address path (suc x.address) hi xs b a.1)

module _ (f : ImageBuffer → ImageBuffer)
    (same_name : (b : ImageBuffer) → (f b).dng_filename ≡ b.dng_filename)
    (same_address : (b : ImageBuffer) → (f b).address ≡ b.address) where
  pub update-Ascending :
      (a lo hi : ℕ) (bs : List ImageBuffer) → Ascending lo bs hi → Ascending lo (update a f bs) hi
  unfolding update
  update-Ascending a lo hi [] h = h
  update-Ascending a lo hi (b ∷ bs) h = elim (Bool-cases (b.address == a)) [
    | inl e ↦ rw e (rw (same_address b) h)
    | inr e ↦ rw e (h.0, update-Ascending a (suc b.address) hi bs h.1)
  ]

  pub length-update : (a : ℕ) (bs : List ImageBuffer) → length (update a f bs) ≡ length bs
  unfolding update
  length-update a [] = refl
  length-update a (b ∷ bs) = ground (arith, length-update a bs)

  -- Where no buffer of that name was, none is after the write.
  pub get_image_buffer-update-none :
      (a : ℕ) (q : Bytes) (bs : List ImageBuffer)
      → get_image_buffer q bs ≡ none
      → get_image_buffer q (update a f bs) ≡ none
  unfolding update get_image_buffer
  get_image_buffer-update-none a q [] h = refl
  get_image_buffer-update-none a q (b ∷ bs) h =
      ground (arith, get_image_buffer-update-none a q bs, same_name b)

  pub update-Distinct : (a : ℕ) (bs : List ImageBuffer) → Distinct bs → Distinct (update a f bs)
  unfolding update
  update-Distinct a [] h = tt
  update-Distinct a (b ∷ bs) h = elim (Bool-cases (b.address == a)) [
    | inl e ↦ rw e (rw (same_name b) h)
    | inr e ↦ rw e (get_image_buffer-update-none a b.dng_filename bs h.0, update-Distinct a bs h.1)
  ]

  -- A lookup of the name finds the buffer as it was written.
  pub get_image_buffer-update :
      (path : Bytes) (lo hi : ℕ) (bs : List ImageBuffer) (b : ImageBuffer)
      → Ascending lo bs hi
      → get_image_buffer path bs ≡ some b
      → get_image_buffer path (update b.address f bs) ≡ some (f b)
  unfolding get_image_buffer update
  get_image_buffer-update path lo hi [] b a e = cc
  get_image_buffer-update path lo hi (x ∷ xs) b a e = ground (
    arith,
    get_image_buffer-update path (suc x.address) hi xs b a.1,
    get_image_buffer-address path (suc x.address) hi xs b a.1,
    same_name x,
  )

  -- A lookup of another name finds what it found before.
  pub get_image_buffer-update_ne :
      (path q : Bytes) (lo hi : ℕ) (bs : List ImageBuffer) (b : ImageBuffer)
      → Ascending lo bs hi
      → get_image_buffer path bs ≡ some b
      → bytes_eq path q ≡ false
      → get_image_buffer q (update b.address f bs) ≡ get_image_buffer q bs
  unfolding get_image_buffer update
  get_image_buffer-update_ne path q lo hi [] b a e n = refl
  get_image_buffer-update_ne path q lo hi (x ∷ xs) b a e n = ground (
    arith,
    get_image_buffer-update_ne path q (suc x.address) hi xs b a.1,
    get_image_buffer-address path (suc x.address) hi xs b a.1,
    eq_of_bytes_eq x.dng_filename path,
    same_name x,
  )

-- The buffer at the end of the list, with the next address, is the one that is written.
pub update-append :
    (f : ImageBuffer → ImageBuffer) (lo hi : ℕ) (bs : List ImageBuffer) (b : ImageBuffer)
    → Ascending lo bs hi
    → b.address ≡ hi
    → update b.address f (bs ++ b ∷ []) ≡ bs ++ f b ∷ []
unfolding update
update-append f lo hi [] b a e = ground arith
update-append f lo hi (x ∷ xs) b a e =
    ground (
      arith,
      update-append f (suc x.address) hi xs b a.1,
      Ascending-bound (suc x.address) hi xs a.1,
    )

-- Names stay distinct when the cache drops buffers, or appends one of a new name.
pub get_image_buffer-drop_unused :
    (q : Bytes) (k : ℕ) (bs : List ImageBuffer)
    → get_image_buffer q bs ≡ none
    → get_image_buffer q (drop_unused k bs) ≡ none
unfolding get_image_buffer drop_unused
get_image_buffer-drop_unused q zero bs h = h
get_image_buffer-drop_unused q (suc k) [] h = refl
get_image_buffer-drop_unused q (suc k) (b ∷ bs) h =
    ground (arith, get_image_buffer-drop_unused q (suc k) bs, get_image_buffer-drop_unused q k bs)

drop_unused-Distinct : (k : ℕ) (bs : List ImageBuffer) → Distinct bs → Distinct (drop_unused k bs)
unfolding drop_unused
drop_unused-Distinct zero bs h = h
drop_unused-Distinct (suc k) [] h = tt
drop_unused-Distinct (suc k) (b ∷ bs) h = elim (Bool-cases b.in_use) [
  | inl e ↦ rw e (
    get_image_buffer-drop_unused b.dng_filename (suc k) bs h.0,
    drop_unused-Distinct (suc k) bs h.1,
  )
  | inr e ↦ rw e (drop_unused-Distinct k bs h.1)
]

pub get_image_buffer-drop :
    (q : Bytes) (k : ℕ) (bs : List ImageBuffer)
    → get_image_buffer q bs ≡ none
    → get_image_buffer q (drop k bs) ≡ none
unfolding get_image_buffer
get_image_buffer-drop q zero bs h = h
get_image_buffer-drop q (suc k) [] h = refl
get_image_buffer-drop q (suc k) (b ∷ bs) h = ground (arith, get_image_buffer-drop q k bs)

drop-Distinct : (k : ℕ) (bs : List ImageBuffer) → Distinct bs → Distinct (drop k bs)
drop-Distinct zero bs h = h
drop-Distinct (suc k) [] h = tt
drop-Distinct (suc k) (b ∷ bs) h = drop-Distinct k bs h.1

pub kept-Distinct : (bs : List ImageBuffer) → Distinct bs → Distinct (kept bs)
unfolding kept
kept-Distinct bs h = drop-Distinct _ _ (drop_unused-Distinct (length bs - 4) bs h)

pub get_image_buffer-kept :
    (q : Bytes) (bs : List ImageBuffer)
    → get_image_buffer q bs ≡ none
    → get_image_buffer q (kept bs) ≡ none
unfolding kept
get_image_buffer-kept q bs h =
    get_image_buffer-drop q _ _ (get_image_buffer-drop_unused q (length bs - 4) bs h)

pub append-Distinct :
    (bs : List ImageBuffer) (b : ImageBuffer)
    → Distinct bs
    → get_image_buffer b.dng_filename bs ≡ none
    → Distinct (bs ++ b ∷ [])
unfolding get_image_buffer
append-Distinct [] b d h = (refl, tt)
append-Distinct (x ∷ xs) b d h = (
  get_image_buffer-append_none x.dng_filename xs b d.0
      (ground (arith, eq_of_bytes_eq b.dng_filename x.dng_filename, bytes_eq_refl b.dng_filename)),
  append-Distinct xs b d.1 (ground arith),
)
  where
    get_image_buffer-append_none :
        (q : Bytes) (bs : List ImageBuffer) (b : ImageBuffer)
        → get_image_buffer q bs ≡ none
        → bytes_eq b.dng_filename q ≡ false
        → get_image_buffer q (bs ++ b ∷ []) ≡ none
    get_image_buffer-append_none q [] b h n = rw n
    get_image_buffer-append_none q (x ∷ xs) b h n =
        ground (arith, get_image_buffer-append_none q xs b)

-- After an append the new name is found, unless an older buffer had it.
pub get_image_buffer-append :
    (bs : List ImageBuffer) (b : ImageBuffer)
    → get_image_buffer b.dng_filename bs ≡ none
    → get_image_buffer b.dng_filename (bs ++ b ∷ []) ≡ some b
unfolding get_image_buffer
get_image_buffer-append [] b h = rw bytes_eq_refl
get_image_buffer-append (x ∷ xs) b h = ground (arith, get_image_buffer-append xs b)
