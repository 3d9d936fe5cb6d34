-- ===== src/Index/Sort/Pass.antt =====
-- One pass of `xref_sort`, and the whole sort.
use mlvfs.Base.{
  ℕ, zero, suc, ◌+◌, ◌-◌, ◌≤◌, ◌<◌, ◌≡◌, refl, ap, ◌∙◌, ◌⊎◌, inl, inr, List, [], ◌∷◌, ◌++◌, ltb,
  length, length-append, append_assoc, append-nil, All, arith, Bool-cases, ltb→lt,
}
use mlvfs.Index.Row.{FrameXref}
use mlvfs.Index.Sort.{PassResult, pass, sort_loop, xref_sort}
use mlvfs.Index.Sort.Order.{
  AllFrom, IsSorted, AllBefore, rows_at, AllFrom-le, IsSorted-append, AllBefore-append,
  AllBefore-split, AllBefore-nil, IsSorted-short,
}

-- A pass keeps the rows of each time in their order, since it swaps at a strict descent only.
pass-rows_at :
    (t k i : ℕ) (x : FrameXref) (ys : List FrameXref) (n : ℕ)
    → rows_at t (pass k i x ys n).table ≡ rows_at t (x ∷ ys)
unfolding pass
pass-rows_at t zero i x ys n = refl
pass-rows_at t (suc k) i x [] n = refl
pass-rows_at t (suc k) i x (y ∷ ys) n =
    ground (arith, pass-rows_at t k (i + 1) x ys (i + 1), pass-rows_at t k (i + 1) y ys n)

-- A pass over the first rows leaves the others alone.
pass-append :
    (i : ℕ) (x : FrameXref) (ys zs : List FrameXref) (n : ℕ)
    → (pass (length ys) i x (ys ++ zs) n).table ≡ (pass (length ys) i x ys n).table ++ zs
      × (pass (length ys) i x (ys ++ zs) n).newn ≡ (pass (length ys) i x ys n).newn
unfolding pass
pass-append i x [] zs n = (refl, refl)
pass-append i x (y ∷ ys) zs n =
    ground (arith, pass-append (i + 1) x ys zs (i + 1), pass-append (i + 1) y ys zs n)

-- What a full pass from `x` leaves: all was in order, or the rows from the last swap on are.
pub record Split (x : FrameXref) (i : ℕ) (r : PassResult) : Type 0 where
  pub front : List FrameXref
  pub back : List FrameXref
  pub parts : r.table ≡ front ++ back
  pub at : r.newn ≡ i + length front
  pub swapped : 0 < length front
  pub rest : 0 < length back
  pub sorted : IsSorted back
  pub above : AllFrom x.frame_time back
  pub apart : AllBefore front back

abbrev Ordered : FrameXref → List FrameXref → ℕ → PassResult → Type 0
Ordered x ys n r = (r.table ≡ x ∷ ys) × (r.newn ≡ n) × IsSorted (x ∷ ys)

pass-Split :
    (i : ℕ) (x : FrameXref) (ys : List FrameXref) (n : ℕ)
    → Ordered x ys n (pass (length ys) i x ys n) ⊎ Split x i (pass (length ys) i x ys n)
unfolding pass
pass-Split i x [] n = inl (refl, refl, (tt, tt))
pass-Split i x (y ∷ ys) n = elim (Bool-cases (ltb y.frame_time x.frame_time)) [
  | inl e ↦ elim (pass-Split (i + 1) x ys (i + 1)) [
    | inl (t, m, s) ↦
        let le : y.frame_time ≤ x.frame_time = ground arith in
        rw e (
          inr (record {
            front = y ∷ [];
            back = x ∷ ys;
            parts = ap (◌∷◌ y) t;
            at = m ∙ (omega arith);
            swapped = omega arith;
            rest = omega arith;
            sorted = s;
            above = (omega arith, s.0);
            apart = ((le, AllFrom-le y.frame_time x.frame_time ys le s.0), tt);
          }))
    | inr s ↦ rw e (
        inr (record {
          front = y ∷ s.front;
          back = s.back;
          parts = ap (◌∷◌ y) s.parts;
          at = s.at ∙ (omega arith);
          swapped = omega arith;
          rest = s.rest;
          sorted = s.sorted;
          above = s.above;
          apart = (
            AllFrom-le y.frame_time x.frame_time s.back (omega (arith, ltb→lt _ _ e)) s.above,
            s.apart,
          );
        }))
  ]
  | inr e ↦ elim (pass-Split (i + 1) y ys n) [
    | inl (t, m, s) ↦
        let le : x.frame_time ≤ y.frame_time = ground arith in
        rw e (inl (ap (◌∷◌ x) t, m, ((le, AllFrom-le x.frame_time y.frame_time ys le s.0), s)))
    | inr s ↦
        let le : x.frame_time ≤ y.frame_time = ground arith in
        rw e (
          inr (record {
            front = x ∷ s.front;
            back = s.back;
            parts = ap (◌∷◌ x) s.parts;
            at = s.at ∙ (omega arith);
            swapped = omega arith;
            rest = s.rest;
            sorted = s.sorted;
            above = AllFrom-le x.frame_time y.frame_time s.back le s.above;
            apart = (AllFrom-le x.frame_time y.frame_time s.back le s.above, s.apart);
          }))
  ]
]

pass-AllBefore :
    (zs : List FrameXref) (k i : ℕ) (x : FrameXref) (ys : List FrameXref) (n : ℕ)
    → AllBefore (x ∷ ys) zs
    → AllBefore (pass k i x ys n).table zs
unfolding pass
pass-AllBefore zs zero i x ys n h = h
pass-AllBefore zs (suc k) i x [] n h = h
pass-AllBefore zs (suc k) i x (y ∷ ys) n (hx, (hy, hs)) =
    elim (Bool-cases (ltb y.frame_time x.frame_time)) [
      | inl e ↦ rw e (hy, pass-AllBefore zs k (i + 1) x ys (i + 1) (hx, hs))
      | inr e ↦ rw e (hx, pass-AllBefore zs k (i + 1) y ys n (hy, hs))
    ]

length-pass :
    (k i : ℕ) (x : FrameXref) (ys : List FrameXref) (n : ℕ)
    → length (pass k i x ys n).table ≡ suc (length ys)
unfolding pass
length-pass zero i x ys n = refl
length-pass (suc k) i x [] n = refl
length-pass (suc k) i x (y ∷ ys) n =
    ground (arith, length-pass k (i + 1) x ys (i + 1), length-pass k (i + 1) y ys n)

sort_loop-IsSorted :
    (fuel n : ℕ) (front back : List FrameXref)
    → length front ≡ n
    → n ≤ fuel
    → 0 < n
    → IsSorted back
    → AllBefore front back
    → IsSorted (sort_loop fuel n (front ++ back))
unfolding sort_loop
sort_loop-IsSorted zero n front back e h o s b = absurd (omega arith)
sort_loop-IsSorted (suc fuel) n [] back e h o s b = absurd (omega arith)
sort_loop-IsSorted (suc fuel) n (x ∷ xs) back e h o s b =
    let k : n - 1 ≡ length xs = omega arith in
    let (t, m) = pass-append 0 x xs back 1 in
    elim (pass-Split 0 x xs 1) [
      | inl (t', m', s') ↦ rw (k, t, m, m', t') (IsSorted-append (x ∷ xs) back s' s b)
      | inr p ↦
          let low = pass-AllBefore back (length xs) 0 x xs 1 b in
          let low' : AllBefore (p.front ++ p.back) back = rw p.parts at low in
          let halves = AllBefore-split p.front p.back back low' in
          let apart' = AllBefore-append p.front p.back back p.apart halves.0 in
          let sorted' = IsSorted-append p.back back p.sorted s halves.1 in
          let n' : 0 + length p.front ≡ length p.front = omega arith in
          let small : length p.front ≤ fuel = omega (
            arith,
            length-pass (length xs) 0 x xs 1,
            ap length p.parts,
            length-append p.front p.back,
            p.rest,
          ) in
          let rec =
            sort_loop-IsSorted fuel (length p.front) p.front (p.back ++ back) refl small p.swapped
              sorted' apart' in
          rw (k, t, m, p.at, n', p.parts, append_assoc p.front p.back back)
            (elim (Bool-cases (ltb 1 (length p.front))) [
              | inl more ↦ rw more rec
              | inr done ↦ rw done (
                  IsSorted-append p.front (p.back ++ back) (IsSorted-short p.front done) sorted'
                    apart')
            ])
    ]

sort_loop-rows_at :
    (t fuel n : ℕ) (table : List FrameXref) → rows_at t (sort_loop fuel n table) ≡ rows_at t table
unfolding sort_loop
sort_loop-rows_at t zero n table = refl
sort_loop-rows_at t (suc fuel) n [] = ground (arith, sort_loop-rows_at t fuel 1 [])
sort_loop-rows_at t (suc fuel) n (x ∷ xs) =
    let r = pass (n - 1) 0 x xs 1 in
    ground (arith, sort_loop-rows_at t fuel r.newn r.table, pass-rows_at t (n - 1) 0 x xs 1)

-- The table comes out in ascending order of time, and the rows of one time keep their order: no
-- row is lost, made up or moved past another of its time.
pub xref_sort_lem :
    (table : List FrameXref)
    → IsSorted (xref_sort table) × ((t : ℕ) → rows_at t (xref_sort table) ≡ rows_at t table)
unfolding xref_sort
xref_sort_lem [] = (unfold sort_loop in tt, λ t. sort_loop-rows_at t 0 0 [])
xref_sort_lem (x ∷ xs) =
    let n = length (x ∷ xs) in
    let sorted =
      sort_loop-IsSorted n n (x ∷ xs) [] refl (omega arith) (omega arith) tt
        (AllBefore-nil (x ∷ xs)) in
    (rw append-nil at sorted, λ t. sort_loop-rows_at t n n (x ∷ xs))

module _ (P : FrameXref → Type 0) where
  pass-All :
      (k i : ℕ) (x : FrameXref) (ys : List FrameXref) (n : ℕ)
      → All P (x ∷ ys)
      → All P (pass k i x ys n).table
  unfolding pass
  pass-All zero i x ys n h = h
  pass-All (suc k) i x [] n h = h
  pass-All (suc k) i x (y ∷ ys) n (hx, (hy, hs)) =
      elim (Bool-cases (ltb y.frame_time x.frame_time)) [
        | inl e ↦ rw e (hy, pass-All k (i + 1) x ys (i + 1) (hx, hs))
        | inr e ↦ rw e (hx, pass-All k (i + 1) y ys n (hy, hs))
      ]

  sort_loop-All :
      (fuel n : ℕ) (table : List FrameXref) → All P table → All P (sort_loop fuel n table)
  unfolding sort_loop
  sort_loop-All zero n table h = h
  sort_loop-All (suc fuel) n [] h = h
  sort_loop-All (suc fuel) n (x ∷ xs) h =
      let r = pass (n - 1) 0 x xs 1 in
      let a = pass-All (n - 1) 0 x xs 1 h in
      elim (Bool-cases (ltb 1 r.newn)) [
        | inl e ↦ rw e (sort_loop-All fuel r.newn r.table a)
        | inr e ↦ rw e a
      ]

  -- What holds of every row holds of every row of the sorted table.
  pub xref_sort-All : (table : List FrameXref) → All P table → All P (xref_sort table)
  unfolding xref_sort
  xref_sort-All table h = sort_loop-All (length table) (length table) table h
