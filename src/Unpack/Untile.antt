-- ===== src/Unpack/Untile.antt =====
-- The untiling of a decompressed frame puts every pixel in its place.
use native.Mathlib.Nat.{mod-eq_of_lt, div-eq_of_lt, mod-eq-sub-mod, div-eq-sub-div}
use mlvfs.Base.{ℕ, ◌+◌, ◌-◌, ◌*◌, ◌/◌, ◌%◌, ◌≤◌, ◌<◌, ◌≡◌, ◌⊎◌, inl, inr, ◌∙◌, arith}
use mlvfs.Unpack.Compressed.{untile_index}

-- Where line or column `i` of the picture stands in the tiled one, for `2 * m` of them.
unfoldable pub tile_index : ℕ → ℕ → ℕ
tile_index m i = i / 2 + i % 2 * m

untile_index_low : (m i : ℕ) → i < m → untile_index (2 * m) i ≡ 2 * i
unfolding untile_index
untile_index_low m i h =
    let a : 2 * i % (2 * m) ≡ 2 * i = mod-eq_of_lt (omega arith) in
    let b : 2 * i / (2 * m) ≡ 0 = div-eq_of_lt (omega arith) in omega (arith, a, b)

untile_index_high : (m i : ℕ) → m ≤ i → i < 2 * m → untile_index (2 * m) i ≡ 2 * (i - m) + 1
unfolding untile_index
untile_index_high m i low h =
    let a : 2 * i % (2 * m) ≡ (2 * i - 2 * m) % (2 * m) = mod-eq-sub-mod (omega arith) in
    let b : (2 * i - 2 * m) % (2 * m) ≡ 2 * i - 2 * m = mod-eq_of_lt (omega arith) in
    let c : 2 * i / (2 * m) ≡ (2 * i - 2 * m) / (2 * m) + 1 =
      div-eq-sub-div (omega arith) (omega arith) in
    let d : (2 * i - 2 * m) / (2 * m) ≡ 0 = div-eq_of_lt (omega arith) in omega (arith, a, b, c, d)

pub le_cases : (a b : ℕ) → (a < b) ⊎ (b ≤ a)
le_cases a b = ground arith

even_or_odd : (i : ℕ) → (i % 2 ≡ 0) ⊎ (i % 2 ≡ 1)
even_or_odd i = ground arith

-- Untiling is one to one and onto.
pub untile_index-tile_index :
    (m i : ℕ) → i < 2 * m → (tile_index m i < 2 * m) × (untile_index (2 * m) (tile_index m i) ≡ i)
untile_index-tile_index m i h = elim (even_or_odd i) [
  | inl even ↦
      let e : tile_index m i ≡ i / 2 = unfold tile_index in rw even (omega arith) in
      rw e (omega arith, untile_index_low m (i / 2) (omega arith) ∙ omega arith)
  | inr odd ↦
      let e : tile_index m i ≡ i / 2 + m = unfold tile_index in rw odd (omega arith) in
      rw e (omega arith, untile_index_high m (i / 2 + m) (omega arith) (omega arith) ∙ omega arith)
]

pub tile_index-untile_index :
    (m i : ℕ)
    → i < 2 * m
    → (untile_index (2 * m) i < 2 * m) × (tile_index m (untile_index (2 * m) i) ≡ i)
tile_index-untile_index m i h = elim (le_cases i m) [
  | inl low ↦
      let e = untile_index_low m i low in
      let z : 2 * i % 2 ≡ 0 = omega arith in
      rw e (omega arith, unfold tile_index in rw z (omega arith))
  | inr high ↦
      let e = untile_index_high m i high h in
      let z : (2 * (i - m) + 1) % 2 ≡ 1 = omega arith in
      rw e (omega arith, unfold tile_index in rw z (omega arith))
]
