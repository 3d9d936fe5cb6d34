-- ===== src/Cache/Cleanup.antt =====
-- `image_buffer_cleanup` of mlvfs/resource_manager.c against a description without loops over
-- pointers: which buffers are left, and in which order.
use mlvfs.Base.{
  ℕ, zero, suc, ◌+◌, ◌-◌, ◌≤◌, ◌≡◌, refl, ap, sym, ◌∙◌, inl, inr, true, none, some, List, [], ◌∷◌,
  length, drop, ltb, if◌then◌else◌, arith, Bool-cases, ◌++◌, Option-cases, List-cases, ltb→lt,
}
use mlvfs.Cache.{
  ImageBuffer, Cache, free_image_buffer, unlink, first_unused, cleanup_unused, cleanup_total,
  image_buffer_cleanup,
}

-- Strictly ascending addresses below a bound: buffers are appended, with fresh addresses.
abbrev pub Ascending : ℕ → List ImageBuffer → ℕ → Type 0
Ascending lo [] hi = lo ≤ hi
Ascending lo (b ∷ bs) hi = (lo ≤ b.address) × Ascending (suc b.address) bs hi

unfoldable pub unused_count : List ImageBuffer → ℕ
unused_count [] = 0
unused_count (b ∷ bs) = (if b.in_use then 0 else 1) + unused_count bs

-- The list without its first `k` buffers that are not in use.
unfoldable pub drop_unused : ℕ → List ImageBuffer → List ImageBuffer
drop_unused zero bs = bs
drop_unused (suc k) [] = []
drop_unused (suc k) (b ∷ bs) = if b.in_use then b ∷ drop_unused (suc k) bs else drop_unused k bs

Ascending-lower :
    (lo lo' hi : ℕ) (bs : List ImageBuffer) → lo' ≤ lo → Ascending lo bs hi → Ascending lo' bs hi
Ascending-lower lo lo' hi [] h a = omega arith
Ascending-lower lo lo' hi (b ∷ bs) h a = (omega arith, a.1)

-- Unlinking the first unused buffer is dropping it.
unlink-first_unused :
    (lo hi : ℕ) (bs : List ImageBuffer) (v : ImageBuffer)
    → Ascending lo bs hi
    → first_unused bs ≡ some v
    → (unlink v.address bs ≡ drop_unused 1 bs) × (lo ≤ v.address)
unfolding unlink first_unused drop_unused
unlink-first_unused lo hi [] v a e = cc
unlink-first_unused lo hi (b ∷ bs) v a e =
    ground (arith, unlink-first_unused (suc b.address) hi bs v a.1)

drop_unused-none : (k : ℕ) (bs : List ImageBuffer) → first_unused bs ≡ none → drop_unused k bs ≡ bs
unfolding drop_unused first_unused
drop_unused-none zero bs e = refl
drop_unused-none (suc k) [] e = refl
drop_unused-none (suc k) (b ∷ bs) e = ground (arith, drop_unused-none (suc k) bs)

pub drop_unused-one :
    (k : ℕ) (bs : List ImageBuffer) → drop_unused k (drop_unused 1 bs) ≡ drop_unused (suc k) bs
unfolding drop_unused
drop_unused-one zero bs = refl
drop_unused-one (suc k) [] = refl
drop_unused-one (suc k) (b ∷ bs) = ground (arith, drop_unused-one (suc k) bs)

length-drop_unused_one :
    (bs : List ImageBuffer) (v : ImageBuffer)
    → first_unused bs ≡ some v
    → length (drop_unused 1 bs) + 1 ≡ length bs
unfolding drop_unused first_unused
length-drop_unused_one [] v e = cc
length-drop_unused_one (b ∷ bs) v e = ground (arith, length-drop_unused_one bs v)

drop_unused-Ascending :
    (k lo hi : ℕ) (bs : List ImageBuffer) → Ascending lo bs hi → Ascending lo (drop_unused k bs) hi
unfolding drop_unused
drop_unused-Ascending zero lo hi bs a = a
drop_unused-Ascending (suc k) lo hi [] a = a
drop_unused-Ascending (suc k) lo hi (b ∷ bs) a = ground (
  arith,
  drop_unused-Ascending (suc k) (suc b.address) hi bs a.1,
  drop_unused-Ascending k (suc b.address) hi bs a.1,
  Ascending-lower (suc b.address) lo hi (drop_unused k bs),
)

-- The count is the length of the list, and the addresses ascend.
pub record Inv (c : Cache) : Type 0 where
  pub counted : c.image_buffer_count ≡ length c.image_buffers
  pub ascending : Ascending 0 c.image_buffers c.next_address

free-first_unused :
    (c : Cache) (v : ImageBuffer)
    → Inv c
    → first_unused c.image_buffers ≡ some v
    → ((free_image_buffer v c).image_buffers ≡ drop_unused 1 c.image_buffers)
      × (((free_image_buffer v c).image_buffer_count + 1 ≡ c.image_buffer_count))
      × Inv (free_image_buffer v c)
unfolding free_image_buffer
free-first_unused c v inv e =
    let (u, _) = unlink-first_unused 0 c.next_address c.image_buffers v inv.ascending e in
    let n = length-drop_unused_one c.image_buffers v e in
    (
      u,
      omega (arith, inv.counted),
      record {
        counted = rw u (omega (arith, inv.counted));
        ascending = rw u (drop_unused-Ascending 1 0 c.next_address c.image_buffers inv.ascending);
      },
    )

cleanup_unused-buffers :
    (fuel : ℕ) (c : Cache)
    → Inv c
    → c.image_buffer_count ≤ fuel
    → ((cleanup_unused fuel c).image_buffers
        ≡ drop_unused (c.image_buffer_count - 4) c.image_buffers)
      × ((cleanup_unused fuel c).next_address ≡ c.next_address)
      × Inv (cleanup_unused fuel c)
unfolding cleanup_unused
cleanup_unused-buffers zero c inv h = (
  let e : c.image_buffer_count - 4 ≡ 0 = omega arith in rw e (unfold drop_unused in refl),
  refl,
  inv,
)
cleanup_unused-buffers (suc fuel) c inv h = elim (Bool-cases (ltb 4 c.image_buffer_count)) [
  | inr few ↦
      let e : c.image_buffer_count - 4 ≡ 0 = ground arith in
      rw few (rw e (unfold drop_unused in refl), refl, inv)
  | inl many ↦ elim (Option-cases (first_unused c.image_buffers)) [
    | inl e ↦ rw (many, e) (sym (drop_unused-none _ _ e), refl, inv)
    | inr (v, e) ↦
        let (u, n, inv') = free-first_unused c v inv e in
        let (a, b, d) = cleanup_unused-buffers fuel (free_image_buffer v c) inv' (omega arith) in
        let k : c.image_buffer_count - 4 ≡ suc ((free_image_buffer v c).image_buffer_count - 4) =
          omega (arith, ltb→lt 4 c.image_buffer_count many) in
        rw (many, e)
          (a ∙ rw u (rw k (drop_unused-one _ _)), b ∙ (unfold free_image_buffer in refl), d)
  ]
]

drop-Ascending :
    (k lo hi : ℕ) (bs : List ImageBuffer) → Ascending lo bs hi → Ascending lo (drop k bs) hi
drop-Ascending zero lo hi bs a = a
drop-Ascending (suc k) lo hi [] a = a
drop-Ascending (suc k) lo hi (b ∷ bs) a =
    Ascending-lower (suc b.address) lo hi (drop k bs) (omega arith)
      (drop-Ascending k (suc b.address) hi bs a.1)

drop-one : (k : ℕ) (bs : List ImageBuffer) → drop k (drop 1 bs) ≡ drop (suc k) bs
drop-one zero [] = refl
drop-one (suc k) [] = refl
drop-one k (b ∷ bs) = refl

module _ (c : Cache) (b : ImageBuffer) (bs : List ImageBuffer) (e : c.image_buffers ≡ b ∷ bs) where
  free_head-buffers :
      Inv c
      → ((free_image_buffer b c).image_buffers ≡ bs)
        × (((free_image_buffer b c).image_buffer_count + 1 ≡ c.image_buffer_count))
        × Inv (free_image_buffer b c)
  unfolding free_image_buffer unlink
  free_head-buffers inv =
      let a : Ascending 0 (b ∷ bs) c.next_address = rw e at inv.ascending in
      let n : c.image_buffer_count ≡ suc (length bs) = rw e at inv.counted in
      let u : unlink b.address c.image_buffers ≡ bs = ground arith in
      (
        u,
        omega arith,
        record {
          counted = rw u (omega arith);
          ascending = rw u (Ascending-lower _ 0 _ bs (omega arith) a.1);
        },
      )

cleanup_total-step :
    (fuel : ℕ) (c : Cache) (b : ImageBuffer) (bs : List ImageBuffer)
    → ltb 16 c.image_buffer_count ≡ true
    → c.image_buffers ≡ b ∷ bs
    → cleanup_total (suc fuel) c ≡ cleanup_total fuel (free_image_buffer b c)
unfolding cleanup_total
cleanup_total-step fuel c b bs many e = ground arith

cleanup_total-buffers :
    (fuel : ℕ) (c : Cache)
    → Inv c
    → c.image_buffer_count ≤ fuel
    → ((cleanup_total fuel c).image_buffers ≡ drop (c.image_buffer_count - 16) c.image_buffers)
      × ((cleanup_total fuel c).next_address ≡ c.next_address)
      × Inv (cleanup_total fuel c)
unfolding cleanup_total
cleanup_total-buffers zero c inv h =
    let e : c.image_buffer_count - 16 ≡ 0 = omega arith in (rw e, refl, inv)
cleanup_total-buffers (suc fuel) c inv h = elim (Bool-cases (ltb 16 c.image_buffer_count)) [
  | inr few ↦ let e : c.image_buffer_count - 16 ≡ 0 = ground arith in rw few (rw e, refl, inv)
  | inl many ↦ elim (List-cases c.image_buffers) [
    | inl e ↦ absurd (omega (arith, inv.counted, ap length e, ltb→lt 16 c.image_buffer_count many))
    | inr (b, bs, e) ↦
        let (u, n, inv') = free_head-buffers c b bs e inv in
        let (a, d, i) = cleanup_total-buffers fuel (free_image_buffer b c) inv' (omega arith) in
        let k : c.image_buffer_count - 16 ≡ suc ((free_image_buffer b c).image_buffer_count - 16) =
          omega (arith, ltb→lt 16 c.image_buffer_count many) in
        rw (cleanup_total-step fuel c b bs many e) (
          a
              ∙ rw u (
                  rw k (sym (ap (drop (suc ((free_image_buffer b c).image_buffer_count - 16))) e))),
          d ∙ (unfold free_image_buffer in refl),
          i,
        )
  ]
]

-- What a cleanup keeps: the oldest unused buffers go while there are more than four, then the
-- oldest of all while there are more than sixteen.
unfoldable pub kept : List ImageBuffer → List ImageBuffer
kept bs = let few = drop_unused (length bs - 4) bs in drop (length few - 16) few

pub image_buffer_cleanup_lem :
    (c : Cache)
    → Inv c
    → ((image_buffer_cleanup c).image_buffers ≡ kept c.image_buffers)
      × ((image_buffer_cleanup c).next_address ≡ c.next_address)
      × Inv (image_buffer_cleanup c)
unfolding image_buffer_cleanup kept
image_buffer_cleanup_lem c inv =
    let (a, d, i) = cleanup_unused-buffers c.image_buffer_count c inv (omega arith) in
    let u = cleanup_unused c.image_buffer_count c in
    let (a', d', i') = cleanup_total-buffers u.image_buffer_count u i (omega arith) in
    let a'' : u.image_buffers ≡ drop_unused (length c.image_buffers - 4) c.image_buffers =
      rw (← inv.counted) a in
    (a' ∙ rw (i.counted, a''), d' ∙ d, i')

pub Ascending-bound : (lo hi : ℕ) (bs : List ImageBuffer) → Ascending lo bs hi → lo ≤ hi
Ascending-bound lo hi [] a = a
Ascending-bound lo hi (b ∷ bs) a = omega (arith, Ascending-bound (suc b.address) hi bs a.1)

pub append-Ascending :
    (lo hi : ℕ) (bs : List ImageBuffer) (b : ImageBuffer)
    → Ascending lo bs hi
    → b.address ≡ hi
    → Ascending lo (bs ++ b ∷ []) (hi + 1)
append-Ascending lo hi [] b a e = omega arith
append-Ascending lo hi (x ∷ xs) b a e = (a.0, append-Ascending (suc x.address) hi xs b a.1 e)
