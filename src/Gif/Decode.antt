-- ===== src/Gif/Decode.antt =====
-- A reader of GIF image data, and what it makes of the data that mlvfs/gif.c writes.
use mlvfs.Base.{
  ℕ, zero, suc, ◌+◌, ◌≤◌, ◌<◌, ◌≡◌, refl, ap, ◌∙◌, true, false, List, [], ◌∷◌, ◌++◌, Option, none,
  some, length, length-append, take, drop, take-append, drop-append, append_assoc, ltb, leb, ◌==◌,
  if◌then◌else◌, arith, Bytes, Bool-cases, inl, inr, eq_of_beq, All, All-append, append-nil,
}
use mathlib.Core.Option
use mlvfs.Gif.{sub_block, emit}

-- The contents of the sub-blocks up to the one of size 0.
abbrev pub unblock : ℕ → Bytes → Option Bytes
unblock zero bs = none
unblock (suc fuel) [] = none
unblock (suc fuel) (n ∷ bs) =
    let rest = Option.map (◌++◌ (take n bs)) (unblock fuel (drop n bs)) in
    if n == 0 then some [] else rest

-- The codes as bytes: 128 clears the table, 129 ends the picture, and a code below 128 is a pixel.
-- After 127 codes the table is so full that codes have nine bits, which this reader refuses; `seen`
-- is the number of codes since the last clear code.
abbrev pub decode : ℕ → List ℕ → Option (List ℕ)
decode seen [] = none
decode seen (c ∷ cs) =
    let cleared = decode 0 cs in
    let pixel = Option.map (◌∷◌ c) (decode (seen + 1) cs) in
    if leb 127 seen
    then none
    else if c == 128
    then cleared
    else if c == 129
    then some []
    else if ltb c 128
    then pixel
    else none

-- The codes of the sub-blocks together.
unfoldable codes : List ℕ → List ℕ → List ℕ
codes current [] = 128 ∷ (current ++ 129 ∷ [])
codes current (p ∷ ps) =
    let current' = current ++ p ∷ [] in
    let full = (128 ∷ current') ++ codes [] ps in
    let on = codes current' ps in if length current' == 125 then full else on

unblock-sub_block :
    (fuel : ℕ) (bs rest : Bytes)
    → unblock (suc fuel) (sub_block bs ++ rest) ≡ Option.map (◌++◌ (128 ∷ bs)) (unblock fuel rest)
unfolding sub_block
unblock-sub_block fuel bs rest =
    let n : length bs + 1 ≡ suc (length bs) = omega arith in
    let z : (suc (length bs) == 0) ≡ false = ground arith in
    rw (n, z, take-append bs rest, drop-append bs rest) refl

unblock-emit :
    (ps current : List ℕ) (fuel : ℕ)
    → unblock (suc (suc (length ps + fuel))) (emit current ps) ≡ some (codes current ps)
unfolding emit codes
unblock-emit [] current fuel =
    let z : 0 + fuel ≡ fuel = omega arith in
    let bs = current ++ 129 ∷ [] in
    rw z (unblock-sub_block (suc fuel) bs (0 ∷ []) ∙ ap some (append-nil (128 ∷ bs)))
unblock-emit (p ∷ ps) current fuel = elim (Bool-cases (length (current ++ p ∷ []) == 125)) [
  | inl e ↦
      let z : suc (length ps) + fuel ≡ suc (length ps + fuel) = omega arith in
      let current' = current ++ p ∷ [] in
      rw (z, e)
        (unblock-sub_block (suc (suc (length ps + fuel))) current' (emit [] ps)
          ∙ ap (Option.map (◌++◌ (128 ∷ current'))) (unblock-emit ps [] fuel))
  | inr e ↦
      let z : suc (length ps) + fuel ≡ length ps + suc fuel = omega arith in
      rw (z, e) (unblock-emit ps (current ++ p ∷ []) (suc fuel))
]

-- A run of pixels is read as it is.
decode_run :
    (ps rest : List ℕ) (seen : ℕ) (out : List ℕ)
    → All (λ p. p < 128) ps
    → seen + length ps ≤ 126
    → decode (seen + length ps) rest ≡ some out
    → decode seen (ps ++ rest) ≡ some (ps ++ out)
decode_run [] rest seen out a h d = let z : seen + 0 ≡ seen = omega arith in rw z at d
decode_run (p ∷ ps) rest seen out (b, a) h d =
    let z : seen + suc (length ps) ≡ seen + 1 + length ps = omega arith in
    let r = decode_run ps rest (seen + 1) out a (omega arith) (rw z at d) in
    let t1 : leb 127 seen ≡ false = ground arith in
    let t2 : (p == 128) ≡ false = ground arith in
    let t3 : (p == 129) ≡ false = ground arith in
    let t4 : ltb p 128 ≡ true = ground arith in rw (t1, t2, t3, t4, r) refl

decode-codes :
    (ps current : List ℕ) (seen : ℕ)
    → All (λ p. p < 128) current
    → All (λ p. p < 128) ps
    → length current < 125
    → seen < 127
    → decode seen (codes current ps) ≡ some (current ++ ps)
unfolding codes
decode-codes [] current seen a b h s =
    let t : leb 127 seen ≡ false = ground arith in
    let t' : leb 127 (0 + length current) ≡ false = ground arith in
    rw t (decode_run current (129 ∷ []) 0 [] a (omega arith) (rw t' refl))
decode-codes (p ∷ ps) current seen a (b, bs) h s =
    elim (Bool-cases (length (current ++ p ∷ []) == 125)) [
      | inl e ↦
          let current' = current ++ p ∷ [] in
          let n = eq_of_beq (length current') 125 e in
          let t : leb 127 seen ≡ false = ground arith in
          let rest =
            decode-codes ps [] (0 + length current') tt bs (omega arith) (omega (arith, n)) in
          rw (e, t)
            (decode_run current' (codes [] ps) 0 ps
                (All-append (λ c. c < 128) current (p ∷ []) a (b, tt)) (omega (arith, n)) rest
              ∙ ap some (append_assoc current (p ∷ []) ps))
      | inr e ↦
          let current' = current ++ p ∷ [] in
          let small : length current' < 125 = ground (arith, length-append current (p ∷ [])) in
          rw e (
            decode-codes ps current' seen (All-append (λ c. c < 128) current (p ∷ []) a (b, tt)) bs
              small s
            ∙ ap some (append_assoc current (p ∷ []) ps))
    ]

-- The sub-blocks that are written for a picture of pixels below 128 are read back as its pixels
-- by a reader that has no need of its table: the clear codes come early enough.
pub decode-emit :
    (ps : List ℕ)
    → All (λ p. p < 128) ps
    → (bs : Bytes) × (unblock (2 + length ps) (emit [] ps) ≡ some bs) × (decode 0 bs ≡ some ps)
decode-emit ps a =
    let e : 2 + length ps ≡ suc (suc (length ps + 0)) = omega arith in
    (
      codes [] ps,
      rw e (unblock-emit ps [] 0),
      decode-codes ps [] 0 tt a (omega arith) (omega arith),
    )
