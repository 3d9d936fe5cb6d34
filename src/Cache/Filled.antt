-- ===== src/Cache/Filled.antt =====
-- Buffers of mlvfs/resource_manager.c that hold what the callback makes of their names.
use mlvfs.Base.{
  ℕ, zero, suc, ◌-◌, ◌≡◌, sym, inl, inr, true, false, some, List, [], ◌∷◌, ◌++◌, length, ◌==◌,
  arith, Bytes, bytes_eq, subst, drop, Bool-cases,
}
use mlvfs.Cache.{Frame, ImageBuffer, empty_frame, get_image_buffer, update}
use mlvfs.Cache.Cleanup.{Ascending, kept, drop_unused}
use mlvfs.Cache.Update.{get_image_buffer-address}

-- Every buffer holds what the callback makes of its name.
abbrev pub Filled : (Bytes → Frame → Frame) → List ImageBuffer → Type 0
Filled cbr [] = Unit {0}
Filled cbr (b ∷ bs) = (b.frame ≡ cbr b.dng_filename empty_frame) × Filled cbr bs

module _ (cbr : Bytes → Frame → Frame) where
  pub Filled-drop : (k : ℕ) (bs : List ImageBuffer) → Filled cbr bs → Filled cbr (drop k bs)
  Filled-drop zero bs f = f
  Filled-drop (suc k) [] f = tt
  Filled-drop (suc k) (b ∷ bs) f = Filled-drop k bs f.1

  pub Filled-drop_unused :
      (k : ℕ) (bs : List ImageBuffer) → Filled cbr bs → Filled cbr (drop_unused k bs)
  unfolding drop_unused
  Filled-drop_unused zero bs f = f
  Filled-drop_unused (suc k) [] f = tt
  Filled-drop_unused (suc k) (b ∷ bs) f = elim (Bool-cases b.in_use) [
    | inl e ↦ rw e (f.0, Filled-drop_unused (suc k) bs f.1)
    | inr e ↦ rw e (Filled-drop_unused k bs f.1)
  ]

  pub Filled-kept : (bs : List ImageBuffer) → Filled cbr bs → Filled cbr (kept bs)
  unfolding kept
  Filled-kept bs f = Filled-drop _ _ (Filled-drop_unused (length bs - 4) bs f)

  pub Filled-append :
      (bs : List ImageBuffer) (b : ImageBuffer)
      → Filled cbr bs
      → b.frame ≡ cbr b.dng_filename empty_frame
      → Filled cbr (bs ++ b ∷ [])
  Filled-append [] b f e = (e, tt)
  Filled-append (x ∷ xs) b f e = (f.0, Filled-append xs b f.1 e)

  -- Only the buffer that the lookup finds is written.
  pub Filled-update :
      (f : ImageBuffer → ImageBuffer) (path : Bytes) (lo hi : ℕ) (bs : List ImageBuffer)
      (b : ImageBuffer)
      → Ascending lo bs hi
      → get_image_buffer path bs ≡ some b
      → (f b).frame ≡ cbr (f b).dng_filename empty_frame
      → Filled cbr bs
      → Filled cbr (update b.address f bs)
  unfolding update get_image_buffer
  Filled-update f path lo hi [] b a e k h = tt
  Filled-update f path lo hi (x ∷ xs) b a e k h = elim (Bool-cases (bytes_eq x.dng_filename path)) [
    | inl n ↦
        let same : some x ≡ some b = rw n at e in
        let eq : x ≡ b = cc in
        let hit : (x.address == b.address) ≡ true = ground arith in
        rw hit (
          subst (λ (z : ImageBuffer). (f z).frame ≡ cbr (f z).dng_filename empty_frame) (sym eq) k,
          h.1,
        )
    | inr n ↦
        let later : get_image_buffer path xs ≡ some b = rw n at e in
        let above = get_image_buffer-address path (suc x.address) hi xs b a.1 later in
        let miss : (x.address == b.address) ≡ false = ground arith in
        rw miss (h.0, Filled-update f path (suc x.address) hi xs b a.1 later k h.1)
  ]

  pub Filled-get :
      (path : Bytes) (bs : List ImageBuffer) (b : ImageBuffer)
      → Filled cbr bs
      → get_image_buffer path bs ≡ some b
      → b.frame ≡ cbr b.dng_filename empty_frame
  unfolding get_image_buffer
  Filled-get path [] b f e = cc
  Filled-get path (x ∷ xs) b f e = elim (Bool-cases (bytes_eq x.dng_filename path)) [
    | inl h ↦
        let same : some x ≡ some b = rw h at e in
        let eq : x ≡ b = cc in
        subst (λ (z : ImageBuffer). z.frame ≡ cbr z.dng_filename empty_frame) eq f.0
    | inr h ↦ Filled-get path xs b f.1 (rw h at e)
  ]
