-- ===== src/Ensemble/Walks.antt =====
-- src/nodes/tree_ensemble_node.cpp: the walks over node records. The AVX2 and NEON branches and the
-- unrolled loops treat several samples or trees at once, each as the plain loop does, and in the same
-- order where they add to one score.
use omle_runtime.Prelude.{
  ℕ, zero, suc, ◌*◌, Bool, ◌&&◌, List, [], ◌∷◌, length, drop, set, ltb, if◌then◌else◌,
}
use omle_runtime.Prelude.Int.{ℤ, pos, negsuc, ◌+ℤ◌}
use omle_runtime.Floats.{Floats, Float}
use omle_runtime.Status.{Result, ok, undefined, fold_range, fold_list, ◌>>=◌}
use omle_runtime.Ensemble.{AosNode, FlatForest, at_int, is_negative}

module _ ⦃fl : Floats⦄ (T : Float) where
  open T use {Carrier, lt, le, add}

  -- The comparison of a walk: true for UseLE.
  abbrev pub compare_by : Bool → Carrier → Carrier → Bool
  compare_by use_le x thr = if use_le then le x thr else lt x thr

  -- One round of DepthTraverser: no test for a leaf.
  unfoldable pub depth_step : Bool → List (AosNode Carrier) → List Carrier → ℤ → Result ℤ
  depth_step use_le nodes row n = do
    nd ← at_int nodes n
    fval ← at_int row nd.feature
    ok (if compare_by use_le fval nd.threshold then nd.left else nd.right)

  -- DepthTraverser
  unfoldable pub depth_traverse : Bool → List (AosNode Carrier) → List Carrier → ℕ → ℤ → Result ℤ
  unfolding depth_step
  depth_traverse use_le nodes row zero n = ok n
  depth_traverse use_le nodes row (suc d) n =
      depth_step use_le nodes row n >>= depth_traverse use_le nodes row d

  -- traverse_aos_nonan, traverse_aos_nonan_le and traverse_aos_flat, with fuel for the visited nodes
  unfoldable pub walk_aos : Bool → List (AosNode Carrier) → List Carrier → ℕ → ℤ → Result ℤ
  walk_aos use_le nodes row zero n = undefined
  walk_aos use_le nodes row (suc fuel) n =
      let move = λ (nd : AosNode Carrier). at_int row nd.feature >>= λ fval.
      walk_aos use_le nodes row fuel
        (if compare_by use_le fval nd.threshold then nd.left else nd.right) in
      at_int nodes n >>= λ nd. if is_negative nd.feature then ok n else move nd

  -- traverse_aos_depth_nonan
  unfoldable pub traverse_aos_depth_nonan :
      Bool → List (AosNode Carrier) → List Carrier → ℕ → Result ℤ
  unfolding depth_traverse walk_aos
  traverse_aos_depth_nonan use_le nodes row depth =
      if ltb 0 depth && ltb depth 9
      then depth_traverse use_le nodes row depth (pos 0)
      else walk_aos use_le nodes row (suc (length nodes)) (pos 0)

  -- FF_STEP
  unfoldable pub ff_step : Bool → List (AosNode Carrier) → List Carrier → ℤ → Result ℤ
  ff_step use_le nodes row c = at_int nodes c >>= λ nd.
      if is_negative nd.feature
      then ok c
      else (at_int row nd.feature >>= λ fval.
          ok (if compare_by use_le fval nd.threshold then nd.left else nd.right))

  unfoldable pub ff_steps : Bool → List (AosNode Carrier) → List Carrier → ℕ → ℤ → Result ℤ
  unfolding ff_step
  ff_steps use_le nodes row zero c = ok c
  ff_steps use_le nodes row (suc d) c = ff_step use_le nodes row c >>= ff_steps use_le nodes row d

  -- output[i] += v
  unfoldable pub add_at : ℤ → Carrier → List Carrier → Result (List Carrier)
  add_at i v output = at_int output i >>= λ x. ok (set output (index_of i) (add x v))
    where
      index_of : ℤ → ℕ
      index_of (pos n) = n
      index_of (negsuc n) = 0

  -- The tail loop of traverse_forest_n1 over the trees.
  unfoldable pub add_trees :
      Bool
      → List (AosNode Carrier)
      → List Carrier
      → ℕ
      → List ℕ
      → List ℤ
      → List Carrier
      → Result (List Carrier)
  unfolding ff_steps add_at
  add_trees use_le nodes row depth [] classes output = ok output
  add_trees use_le nodes row depth (root ∷ roots) [] output = undefined
  add_trees use_le nodes row depth (root ∷ roots) (cls ∷ classes) output = do
    c ← ff_steps use_le nodes row depth (pos root)
    nd ← at_int nodes c
    out ← add_at cls nd.threshold output
    add_trees use_le nodes row depth roots classes out

  -- traverse_forest_n1
  unfoldable pub traverse_forest_n1 :
      Bool → FlatForest Carrier → List Carrier → List Carrier → Result (List Carrier)
  unfolding add_trees
  traverse_forest_n1 use_le ff row output =
      add_trees use_le ff.all_nodes row ff.forest_depth ff.roots ff.tree_class output

  -- One tree of traverse_block_flat_grouped, on the samples of a block: the score of sample i that is
  -- added to is `slot i`.
  unfoldable pub block_tree :
      Bool
      → List (AosNode Carrier)
      → List Carrier
      → ℕ
      → ℕ
      → ℕ
      → (ℕ → ℤ)
      → List Carrier
      → Result (List Carrier)
  unfolding walk_aos add_at
  block_tree use_le nodes features block_n n_features root slot scores =
      fold_range
        (λ i out.
          walk_aos use_le nodes (drop (i * n_features) features) (suc (length nodes)) (pos root)
          >>= λ c. at_int nodes c >>= λ nd. add_at (slot i) nd.threshold out)
        0 block_n scores

  -- traverse_block_flat
  unfoldable pub traverse_block_flat :
      Bool → FlatForest Carrier → List Carrier → ℕ → ℕ → List Carrier → Result (List Carrier)
  unfolding block_tree
  traverse_block_flat use_le ff features block_n n_features scores =
      fold_list
        (λ root. block_tree use_le ff.all_nodes features block_n n_features root (λ i. pos i))
        ff.roots scores

  grouped_trees :
      Bool
      → List (AosNode Carrier)
      → List Carrier
      → ℕ
      → ℕ
      → ℕ
      → List ℕ
      → List ℤ
      → List Carrier
      → Result (List Carrier)
  unfolding block_tree
  grouped_trees use_le nodes features block_n n_features n_out [] classes scores = ok scores
  grouped_trees use_le nodes features block_n n_features n_out (root ∷ roots) [] scores = undefined
  grouped_trees use_le nodes features block_n n_features n_out (root ∷ roots) (ci ∷ classes)
        scores =
      block_tree use_le nodes features block_n n_features root (λ i. pos (i * n_out) +ℤ ci) scores
      >>= grouped_trees use_le nodes features block_n n_features n_out roots classes

  -- traverse_block_flat_grouped
  unfoldable pub traverse_block_flat_grouped :
      Bool → FlatForest Carrier → List Carrier → ℕ → ℕ → ℕ → List Carrier → Result (List Carrier)
  unfolding grouped_trees
  traverse_block_flat_grouped use_le ff features block_n n_features n_out scores =
      grouped_trees use_le ff.all_nodes features block_n n_features n_out ff.roots ff.tree_class
        scores
