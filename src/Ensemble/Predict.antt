-- ===== src/Ensemble/Predict.antt =====
-- src/nodes/tree_ensemble_node.cpp: predict_impl. `highest` is std::numeric_limits<T>::max(), and
-- `elem_size` is sizeof(T).
use omle_runtime.Prelude.{
  ℕ, zero, suc, ◌*◌, ◌/◌, ◌-◌, Bool, true, false, not, ◌&&◌, ◌||◌, Option, none, some, List, [],
  ◌∷◌, ◌++◌, drop, take, ltb, leb, ◌==◌, if◌then◌else◌, min, max,
}
use omle_runtime.Prelude.Int.{pos, ◌+ℤ◌}
use omle_runtime.Floats.{Floats, Float}
use omle_runtime.Status.{Result, ok, undefined, fold_range, fold_list, ◌>>=◌}
use omle_runtime.ValueStore.{ValueStore}
use omle_runtime.PostTransform.{apply_post_transform}
use omle_runtime.Ensemble.{
  FlatTree, TreeEnsembleModel, at_int, traverse_one_le_nonan, traverse_one_lt_nonan,
}
use omle_runtime.Ensemble.Forest.{class_of}
use omle_runtime.Ensemble.Walks.{
  add_at, traverse_forest_n1, traverse_block_flat, traverse_block_flat_grouped,
}
use omle_runtime.Ensemble.Batch.{row_at, traverse_block_simple}
use omle_runtime.Ensemble.Single.{
  is_sum, scan_has_nan, seed_scores, tree_at, sum_trees, sum_parallel, group_trees,
}
use omle_runtime.Ensemble.General.{dispatch_batch, finish, general_path}

-- What the loops are built for: OMLE_AVX2, OMLE_NEON, or neither.
pub data Build : Type 0 where
  avx2 neon fallback : Build

-- kL1, 3/4 of the first cache
unfoldable pub cache_bytes : Build → ℕ
cache_bytes neon = 96 * 1024
cache_bytes _ = 24 * 1024

-- simd_w
unfoldable pub simd_width : Build → ℕ → ℕ
simd_width avx2 elem_size = if elem_size == 4 then 8 else 4
simd_width neon elem_size = if elem_size == 4 then 4 else 2
simd_width fallback elem_size = 4

-- compute_block_size
unfoldable pub compute_block_size : Build → ℕ → ℕ → ℕ
unfolding cache_bytes simd_width
compute_block_size build zero elem_size = 128
compute_block_size build n_feat elem_size =
    let w = simd_width build elem_size in
    min 128 (max w (((cache_bytes build / (n_feat * elem_size)) / w) * w))

-- kTreeParallelThreshold
abbrev pub tree_parallel_threshold : ℕ
tree_parallel_threshold = 200

module _ ⦃fl : Floats⦄ (T : Float) (is_nan : T.Carrier → Bool) (highest : T.Carrier)
    (elem_size : ℕ) where
  open T use {Carrier, lt, add, mul, literal}

  -- The loop that sets all_lt and all_le, from the trees that are left.
  unfoldable pub scan_flags : List (FlatTree Carrier) → Bool → Bool → Bool × Bool
  scan_flags [] all_lt all_le = (all_lt, all_le)
  scan_flags (tr ∷ trs) all_lt all_le =
      let lt' = all_lt && tr.all_less_than in
      let le' = all_le && tr.all_less_equal in
      let rest = scan_flags trs lt' le' in
      if not (tr.leaf_width == 1) || tr.has_complex
      then (false, false)
      else if not lt' && not le'
      then (lt', le')
      else rest

  -- for (int b = 0; b < n_samples; b += BLOCK), with fuel for the blocks: `body` gets the features and
  -- the scores from sample b on.
  unfoldable pub blocks :
      (List Carrier → ℕ → List Carrier → Result (List Carrier))
      → ℕ
      → ℕ
      → ℕ
      → ℕ
      → ℕ
      → List Carrier
      → List Carrier
      → Result (List Carrier)
  blocks body block n_feat n_out fuel zero features output = ok output
  blocks body block n_feat n_out zero (suc left) features output = undefined
  blocks body block n_feat n_out (suc fuel) (suc left) features output = do
    let bn = min block (suc left)
    out ← body features bn output
    rest ←
        blocks body block n_feat n_out fuel (suc left - bn) (drop (bn * n_feat) features)
          (drop (bn * n_out) out)
    ok (take (bn * n_out) out ++ rest)

  -- The body of the blocked single-output path.
  unfoldable pub sum_block :
      TreeEnsembleModel Carrier
      → Bool
      → Bool
      → ℕ
      → List Carrier
      → ℕ
      → List Carrier
      → Result (List Carrier)
  unfolding traverse_block_flat traverse_block_simple
  sum_block model has_nan all_le n_feat features bn out =
      if not has_nan && model.flat_forest.valid
      then traverse_block_flat T model.flat_forest.all_le model.flat_forest features bn n_feat out
      else fold_list (λ tr out. traverse_block_simple T is_nan all_le tr features bn n_feat out)
          model.trees out

  -- One tree of the blocked grouped path that has no flat forest.
  unfoldable pub grouped_block_tree :
      TreeEnsembleModel Carrier
      → Bool
      → ℕ
      → List Carrier
      → ℕ
      → ℕ
      → List Carrier
      → Result (List Carrier)
  unfolding class_of add_at traverse_one_le_nonan traverse_one_lt_nonan
  grouped_block_tree model all_le n_feat features bn t out = do
    tr ← tree_at T is_nan highest model t
    fold_range
        (λ i out.
          (if all_le
            then traverse_one_le_nonan T is_nan tr (row_at T is_nan features n_feat i)
            else traverse_one_lt_nonan T is_nan tr (row_at T is_nan features n_feat i))
          >>= λ node. at_int tr.leaf_value node >>= λ v.
              add_at T (pos (i * model.n_outputs) +ℤ class_of T model.tree_group t) v out)
        0 bn out

  -- The body of the blocked grouped path.
  unfoldable pub grouped_block :
      TreeEnsembleModel Carrier
      → Bool
      → Bool
      → ℕ
      → List Carrier
      → ℕ
      → List Carrier
      → Result (List Carrier)
  unfolding traverse_block_flat_grouped grouped_block_tree
  grouped_block model has_nan all_le n_feat features bn out =
      if not has_nan && model.flat_forest.valid
      then traverse_block_flat_grouped T model.flat_forest.all_le model.flat_forest features bn
          n_feat model.n_outputs out
      else fold_range (λ t out. grouped_block_tree model all_le n_feat features bn t out) 0
          model.n_trees out

  -- The forest of the model, on one sample.
  unfoldable pub forest_single :
      TreeEnsembleModel Carrier → List Carrier → List Carrier → Result (List Carrier)
  unfolding traverse_forest_n1
  forest_single model features out =
      traverse_forest_n1 T model.flat_forest.all_le model.flat_forest features out

  -- The path for a single output that is a plain sum, for one sample.
  unfoldable pub sum_single :
      TreeEnsembleModel Carrier
      → List Carrier
      → Bool
      → Option ValueStore
      → Option ℕ
      → List Carrier
      → Result (List Carrier)
  unfolding sum_trees sum_parallel forest_single apply_post_transform
  sum_single model features has_nan vs pool out =
      let trees = sum_trees T is_nan highest model features has_nan vs out in
      let alone =
        if not has_nan && model.flat_forest.valid
        then forest_single model features out
        else trees in
      let scores : Result (List Carrier) = elim pool [
        | none ↦ alone
        | some np ↦
            if ltb 1 np && leb tree_parallel_threshold model.n_trees
            then sum_parallel T is_nan highest model features has_nan vs np out
            else alone
      ] in
      scores >>= λ ss. apply_post_transform T ss 1 1 model.post_transform

  -- The same path for more samples.
  unfoldable pub sum_batch :
      TreeEnsembleModel Carrier
      → List Carrier
      → ℕ
      → ℕ
      → Bool
      → Option ValueStore
      → List Carrier
      → Result (List Carrier)
  unfolding scan_flags blocks sum_block dispatch_batch apply_post_transform
  sum_batch model features n_samples n_feat has_nan vs out =
      let flags = scan_flags model.trees true true in
      (if flags.0 || flags.1
        then blocks (sum_block model has_nan flags.1 n_feat)
            (compute_block_size fallback n_feat elem_size) n_feat 1 n_samples n_samples features out
        else fold_range
            (λ t out. tree_at T is_nan highest model t >>= λ tree.
              dispatch_batch T is_nan highest tree features n_samples n_feat vs out 0)
            0 model.n_trees out)
      >>= λ ss. apply_post_transform T ss n_samples model.n_outputs model.post_transform

  -- The path for plain sums into several outputs, which may leave the call to the general path.
  unfoldable pub grouped_path :
      TreeEnsembleModel Carrier
      → List Carrier
      → ℕ
      → ℕ
      → Bool
      → Option ValueStore
      → List Carrier
      → Result (List Carrier)
  unfolding scan_flags blocks grouped_block forest_single group_trees finish general_path
  grouped_path model features n_samples n_feat has_nan vs out =
      let flags = scan_flags model.trees true true in
      if n_samples == 1
      then ((if not has_nan && model.flat_forest.valid
            then forest_single model features out
            else group_trees T is_nan highest model features has_nan vs out)
          >>= finish T is_nan highest model 1)
      else if flags.0 || flags.1
      then (blocks (grouped_block model has_nan flags.1 n_feat)
            (compute_block_size fallback n_feat elem_size) n_feat model.n_outputs n_samples
            n_samples features out
          >>= finish T is_nan highest model n_samples)
      else general_path T is_nan highest model features n_samples n_feat vs out

  has_entries {ℓ} : {A : Type ℓ} → List A → Bool
  has_entries [] = false
  has_entries (x ∷ xs) = true

  -- predict_impl: the scores that it leaves in `output`; `pool` is the size of the thread pool.
  unfoldable pub predict_impl :
      TreeEnsembleModel Carrier
      → List Carrier
      → ℕ
      → Option ValueStore
      → ℕ
      → Option ℕ
      → Result (List Carrier)
  unfolding scan_has_nan seed_scores sum_single sum_batch grouped_path general_path has_entries
  predict_impl model features n_samples vs n_features pool = do
    let n_feat = if ltb 0 n_features then n_features else model.n_features
    let grouped = has_entries model.tree_group || ltb 1 model.n_outputs
    let plain = is_sum model.aggregation && not (has_entries model.tree_weights)
    out ← seed_scores T is_nan highest model n_samples
    has_nan ← scan_has_nan T is_nan highest features (n_samples * n_feat)
    (if plain && not grouped
        then if n_samples == 1
          then sum_single model features has_nan vs pool out
          else sum_batch model features n_samples n_feat has_nan vs out
        else if plain && grouped
        then grouped_path model features n_samples n_feat has_nan vs out
        else general_path T is_nan highest model features n_samples n_feat vs out)
