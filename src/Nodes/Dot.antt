-- ===== src/Nodes/Dot.antt =====
-- src/nodes/linear_node.cpp: dot, in a build with AVX2, with NEON, and with neither, over the vectors of
-- src/simd_traits.h. The processor's fused multiplication, and NEON's sum of a vector, are parameters.
use omle_runtime.Prelude.{ℕ, ◌+◌, ◌-◌, ◌*◌, ◌/◌, List, [], ◌∷◌, get_elem?, replicate}
use omle_runtime.Prelude.Int.{pos}
use omle_runtime.Floats.{Float}
use omle_runtime.Status.{Result, ok, defined, tabulate, fold_range, ◌>>=◌}

-- The vectors of a build, lists of `width` numbers: `fma x y z` is x * y + z, rounded once, in each
-- place, and `hsum` the sum of the places, in the order of the processor.
pub record Registers (A : Type 0) : Type 0 where
  pub width : ℕ
  pub fma : A → A → A → A
  pub hsum : List A → A

-- The branches of the preprocessor.
pub data Loops (A : Type 0) : Type 0 where
  scalar_loops : Loops A
  avx2_loops neon_loops : Registers A → Loops A

unfoldable pub zip_lanes : {A : Type 0} → (A → A → A) → List A → List A → List A
zip_lanes f (x ∷ xs) (y ∷ ys) = f x y ∷ zip_lanes f xs ys
zip_lanes f _ _ = []

unfoldable pub fma_lanes : {A : Type 0} → (A → A → A → A) → List A → List A → List A → List A
fma_lanes f (x ∷ xs) (y ∷ ys) (z ∷ zs) = f x y z ∷ fma_lanes f xs ys zs
fma_lanes f _ _ _ = []

module _ (T : Float) where
  open T use {Carrier, literal, add, mul}

  -- for (; k < n; ++k) total += a[k] * b[k], of `left` products from k on
  unfoldable pub add_products :
      List Carrier → ℕ → List Carrier → ℕ → ℕ → ℕ → Carrier → Result Carrier
  add_products xs a ys b k left total =
      fold_range
        (λ k total. defined (get_elem? xs (a + k)) >>= λ x.
          defined (get_elem? ys (b + k)) >>= λ y. ok (add total (mul x y)))
        k left total

  module _ (r : Registers Carrier) where
    unfoldable pub zero_lanes : List Carrier
    zero_lanes = replicate r.width (literal (pos 0) 0)

    unfoldable pub add_lanes : List Carrier → List Carrier → List Carrier
    unfolding zip_lanes
    add_lanes xs ys = zip_lanes add xs ys

    -- loadu, nloadu
    unfoldable pub load_lanes : List Carrier → ℕ → Result (List Carrier)
    load_lanes xs at = tabulate (λ i. defined (get_elem? xs i)) at r.width

    -- acc = fmadd(loadu(a), loadu(b), acc)
    unfoldable pub fma_at :
        List Carrier → ℕ → List Carrier → ℕ → List Carrier → Result (List Carrier)
    unfolding load_lanes fma_lanes
    fma_at xs a ys b acc =
        load_lanes xs a >>= λ x. load_lanes ys b >>= λ y. ok (fma_lanes r.fma x y acc)

    -- The loop with two accumulators, of `rounds` rounds.
    unfoldable pub two_sums :
        List Carrier → ℕ → List Carrier → ℕ → ℕ → Result (List Carrier × List Carrier)
    unfolding fma_at zero_lanes
    two_sums xs a ys b rounds =
        fold_range
          (λ i (acc0, acc1).
            let k = i * (2 * r.width) in
            fma_at xs (a + k) ys (b + k) acc0 >>= λ acc0'.
            fma_at xs (a + k + r.width) ys (b + k + r.width) acc1 >>= λ acc1'. ok (acc0', acc1'))
          0 rounds (zero_lanes, zero_lanes)

    -- The loop with four accumulators, and their sum.
    unfoldable pub four_sums : List Carrier → ℕ → List Carrier → ℕ → ℕ → Result (List Carrier)
    unfolding fma_at zero_lanes add_lanes
    four_sums xs a ys b rounds =
        fold_range
          (λ i (acc0, acc1, acc2, acc3).
            let k = i * (4 * r.width) in
            fma_at xs (a + k) ys (b + k) acc0 >>= λ acc0'.
            fma_at xs (a + k + r.width) ys (b + k + r.width) acc1 >>= λ acc1'.
            fma_at xs (a + k + 2 * r.width) ys (b + k + 2 * r.width) acc2 >>= λ acc2'.
            fma_at xs (a + k + 3 * r.width) ys (b + k + 3 * r.width) acc3 >>= λ acc3'.
            ok (acc0', acc1', acc2', acc3'))
          0 rounds (zero_lanes, zero_lanes, zero_lanes, zero_lanes)
        >>= λ (acc0, acc1, acc2, acc3). ok (add_lanes (add_lanes acc0 acc1) (add_lanes acc2 acc3))

    unfoldable pub dot_avx2 : List Carrier → ℕ → List Carrier → ℕ → ℕ → Result Carrier
    unfolding four_sums fma_at add_products
    dot_avx2 xs a ys b n =
        let rounds = n / (4 * r.width) in
        let k = rounds * (4 * r.width) in
        let more = (n - k) / r.width in
        let tail = k + more * r.width in
        four_sums xs a ys b rounds >>= λ acc.
        fold_range (λ i acc. fma_at xs (a + k + i * r.width) ys (b + k + i * r.width) acc) 0 more
          acc
        >>= λ acc. add_products xs a ys b tail (n - tail) (r.hsum acc)

    unfoldable pub dot_neon : List Carrier → ℕ → List Carrier → ℕ → ℕ → Result Carrier
    unfolding two_sums add_lanes add_products
    dot_neon xs a ys b n =
        let rounds = n / (2 * r.width) in
        let tail = rounds * (2 * r.width) in
        two_sums xs a ys b rounds >>= λ (acc0, acc1).
        add_products xs a ys b tail (n - tail) (r.hsum (add_lanes acc0 acc1))

    -- The score of a sample in a block of four: the bias is added before the products that are left.
    unfoldable pub block_score : List Carrier → ℕ → List Carrier → ℕ → Carrier → Result Carrier
    unfolding two_sums add_lanes add_products
    block_score xs a w nf bias =
        let rounds = nf / (2 * r.width) in
        let tail = rounds * (2 * r.width) in
        two_sums xs a w 0 rounds >>= λ (acc0, acc1).
        add_products xs a w 0 tail (nf - tail) (add (r.hsum (add_lanes acc0 acc1)) bias)

  -- dot, of n values from positions a and b on
  unfoldable pub dot : Loops Carrier → List Carrier → ℕ → List Carrier → ℕ → ℕ → Result Carrier
  unfolding add_products dot_avx2 dot_neon
  dot scalar_loops xs a ys b n = add_products xs a ys b 0 n (literal (pos 0) 0)
  dot (avx2_loops r) xs a ys b n = dot_avx2 r xs a ys b n
  dot (neon_loops r) xs a ys b n = dot_neon r xs a ys b n

  -- hsum of eight floats, and of four doubles: the halves are added first. There are no other lists of
  -- lanes.
  unfoldable pub hsum_floats : List Carrier → Carrier
  hsum_floats (a ∷ b ∷ c ∷ d ∷ e ∷ f ∷ g ∷ h ∷ []) =
      add (add (add a e) (add b f)) (add (add c g) (add d h))
  hsum_floats _ = literal (pos 0) 0

  unfoldable pub hsum_doubles : List Carrier → Carrier
  hsum_doubles (a ∷ b ∷ c ∷ d ∷ []) = add (add a c) (add b d)
  hsum_doubles _ = literal (pos 0) 0

  -- SimdTraits<float> and SimdTraits<double> with AVX2, of the processor's fused multiplication.
  unfoldable pub avx2_floats : (Carrier → Carrier → Carrier → Carrier) → Registers Carrier
  unfolding hsum_floats
  avx2_floats fma = record { width = 8; fma = fma; hsum = hsum_floats }

  unfoldable pub avx2_doubles : (Carrier → Carrier → Carrier → Carrier) → Registers Carrier
  unfolding hsum_doubles
  avx2_doubles fma = record { width = 4; fma = fma; hsum = hsum_doubles }
