-- ===== src/Ensemble/BlockSize.antt =====
-- src/nodes/tree_ensemble_node.cpp: compute_block_size.
use native.Mathlib.Nat.{div-mul-le_self, mul-le-mul_right, le_trans}
use omle_runtime.Prelude.{
  ℕ, zero, suc, ◌*◌, ◌/◌, ◌%◌, ◌≡◌, refl, arith, min, max, Bool-cases, ltb, ◌==◌, ◌⊎◌, inl, inr,
  ◌≤◌,
}
use omle_runtime.Ensemble.Predict.{
  Build, avx2, neon, fallback, cache_bytes, simd_width, compute_block_size,
}

-- Four cases: all that a width can be.
width_cases :
    (build : Build) (elem_size : ℕ)
    → (w : ℕ) × (simd_width build elem_size ≡ w) × ((w ≡ 2) ⊎ ((w ≡ 4) ⊎ (w ≡ 8)))
unfolding simd_width
width_cases avx2 e = elim (Bool-cases (e == 4)) [
  | inl h ↦ (8, rw h refl, inr (inr refl))
  | inr h ↦ (4, rw h refl, inr (inl refl))
]
width_cases neon e = elim (Bool-cases (e == 4)) [
  | inl h ↦ (4, rw h refl, inr (inl refl))
  | inr h ↦ (2, rw h refl, inl refl)
]
width_cases fallback e = (4, refl, inr (inl refl))

-- The block size for a width w and q rows in the cache.
abbrev block : ℕ → ℕ → ℕ
block w q = min 128 (max w ((q / w) * w))

abbrev InBounds : ℕ → ℕ → Type 0
InBounds w q =
    (w ≤ block w q) × (block w q ≤ 128) × (block w q % w ≡ 0) × ((block w q ≡ w) ⊎ (block w q ≤ q))

block-InBounds : (w q : ℕ) → (w ≡ 2) ⊎ ((w ≡ 4) ⊎ (w ≡ 8)) → InBounds w q
block-InBounds w q (inl e) = rw e (omega arith, omega arith, omega arith, two)
  where
    two : (block 2 q ≡ 2) ⊎ (block 2 q ≤ q)
    two = elim (Bool-cases (ltb 2 ((q / 2) * 2))) [
      | inl h ↦ inr (ground (arith, h))
      | inr h ↦ inl (ground (arith, h))
    ]
block-InBounds w q (inr (inl e)) = rw e (omega arith, omega arith, omega arith, four)
  where
    four : (block 4 q ≡ 4) ⊎ (block 4 q ≤ q)
    four = elim (Bool-cases (ltb 4 ((q / 4) * 4))) [
      | inl h ↦ inr (ground (arith, h))
      | inr h ↦ inl (ground (arith, h))
    ]
block-InBounds w q (inr (inr e)) = rw e (omega arith, omega arith, omega arith, eight)
  where
    eight : (block 8 q ≡ 8) ⊎ (block 8 q ≤ q)
    eight = elim (Bool-cases (ltb 8 ((q / 8) * 8))) [
      | inl h ↦ inr (ground (arith, h))
      | inr h ↦ inl (ground (arith, h))
    ]

-- In a build with AVX2, with NEON or with neither, compute_block_size gives at least the width of
-- the vectors and at most 128, a multiple of that width, and where it is not that width, so many
-- rows of features take at most 24,576 bytes, or 98,304 with NEON.
pub compute_block_size-bounds :
    (build : Build) (n_feat elem_size : ℕ)
    → let b = compute_block_size build n_feat elem_size in
      let w = simd_width build elem_size in
      (w ≤ b) × (b ≤ 128) × (b % w ≡ 0) × ((b ≡ w) ⊎ (b * (n_feat * elem_size) ≤ cache_bytes build))
unfolding compute_block_size
compute_block_size-bounds build zero elem_size =
    let (w, e, cases) = width_cases build elem_size in
    let none_read : 128 * (zero * elem_size) ≤ cache_bytes build = omega arith in
    rw e (elim cases [
      | inl h ↦ rw h (omega arith, omega arith, refl, inr none_read)
      | inr (inl h) ↦ rw h (omega arith, omega arith, refl, inr none_read)
      | inr (inr h) ↦ rw h (omega arith, omega arith, refl, inr none_read)
    ])
compute_block_size-bounds build (suc n) elem_size =
    let row = suc n * elem_size in
    let q = cache_bytes build / row in
    let (w, e, cases) = width_cases build elem_size in
    let (low, high, multiple, fits) = block-InBounds w q cases in
    rw e (
      low,
      high,
      multiple,
      elim fits [
        | inl h ↦ inl h
        | inr h ↦ inr (le_trans (mul-le-mul_right row h) (div-mul-le_self (cache_bytes build) row))
      ],
    )
