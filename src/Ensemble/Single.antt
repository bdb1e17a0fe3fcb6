-- ===== src/Ensemble/Single.antt =====
-- src/nodes/tree_ensemble_node.cpp: one sample through one tree, the scores that a call starts with, and
-- their scaling at its end. `highest` is std::numeric_limits<T>::max().
use omle_runtime.Prelude.{
  ℕ, zero, suc, ◌*◌, ◌/◌, ◌-◌, Bool, true, false, ◌&&◌, Option, none, some, List, [], ◌∷◌, ◌++◌,
  replicate, length, foldl, get_elem?, ltb, ◌==◌, if◌then◌else◌,
}
use omle_runtime.Prelude.Int.{ℤ, pos, ◌+ℤ◌}
use omle_runtime.Floats.{Floats, Float}
use omle_runtime.Status.{no_escape, Result, ok, undefined, defined, tabulate, fold_range, ◌>>=◌}
use omle_runtime.ValueStore.{ValueStore}
use omle_runtime.Ensemble.{
  Aggregation, sum, average, weighted_avg, soft_vote, minimum, maximum, AosNode, FlatTree,
  TreeEnsembleModel, at_int, traverse_one_lt, traverse_one_generic, traverse_one_le_nonan,
  traverse_one_lt_nonan, traverse_one_generic_nonan, traverse_one_complex,
}
use omle_runtime.Ensemble.Forest.{class_of}
use omle_runtime.Ensemble.Walks.{walk_aos, traverse_aos_depth_nonan, add_at}

unfoldable pub is_sum : Aggregation → Bool
is_sum sum = true
is_sum _ = false

module _ ⦃fl : Floats⦄ (T : Float) (is_nan : T.Carrier → Bool) (highest : T.Carrier) where
  open T use {Carrier, lt, eq, add, mul, div, neg, literal, of_int}

  -- scan_has_nan; its vector branches test several values at once
  unfoldable pub scan_has_nan : List Carrier → ℕ → Result Bool
  scan_has_nan features zero = ok false
  scan_has_nan [] (suc n) = undefined
  scan_has_nan (x ∷ features) (suc n) = if is_nan x then ok true else scan_has_nan features n

  -- The walks of traverse_single for a row without NaN, over the node records if there are any.
  unfoldable pub single_nonan : FlatTree Carrier → List Carrier → List (AosNode Carrier) → Result ℤ
  unfolding traverse_one_le_nonan traverse_one_lt_nonan traverse_one_generic_nonan walk_aos
      traverse_aos_depth_nonan
  single_nonan tree row [] =
      if tree.all_less_equal
      then traverse_one_le_nonan T is_nan tree row
      else if tree.all_less_than
      then traverse_one_lt_nonan T is_nan tree row
      else traverse_one_generic_nonan T is_nan tree row
  single_nonan tree row (nd ∷ nodes) =
      if ltb 0 tree.uniform_depth
      then traverse_aos_depth_nonan T tree.all_less_equal (nd ∷ nodes) row tree.uniform_depth
      else walk_aos T tree.all_less_equal (nd ∷ nodes) row (suc (length (nd ∷ nodes))) (pos 0)

  -- traverse_single, which is noexcept
  unfoldable pub traverse_single :
      FlatTree Carrier → List Carrier → Bool → Option ValueStore → Result ℤ
  unfolding traverse_one_complex traverse_one_lt traverse_one_generic single_nonan no_escape
  traverse_single tree row has_nan vs = elim (if tree.has_complex then vs else none) [
    | some store ↦ no_escape (traverse_one_complex T is_nan tree row store)
    | none ↦
        if has_nan
        then if tree.all_less_than
          then traverse_one_lt T is_nan tree row
          else traverse_one_generic T is_nan tree row
        else single_nonan tree row tree.aos_nodes
  ]

  -- The accumulator before the first tree. The loader has rejected base scores of any other number.
  unfoldable pub base_rows : List Carrier → ℕ → ℕ → Result (List Carrier)
  base_rows [] n_samples n_out = ok (replicate (n_samples * n_out) (literal (pos 0) 0))
  base_rows (b ∷ []) n_samples n_out =
      let zero_score = literal (pos 0) 0 in
      ok (replicate (n_samples * n_out) (if eq b zero_score then zero_score else b))
  base_rows bs zero n_out = ok []
  base_rows bs (suc n_samples) n_out =
      if length bs == n_out
      then (base_rows bs n_samples n_out >>= λ rest. ok (bs ++ rest))
      else undefined

  unfoldable pub seed_scores : TreeEnsembleModel Carrier → ℕ → Result (List Carrier)
  unfolding base_rows
  seed_scores model n_samples = base_rows model.base_scores n_samples model.n_outputs >>= λ base.
      elim model.aggregation [
        | minimum ↦ ok (replicate (n_samples * model.n_outputs) highest)
        | maximum ↦ ok (replicate (n_samples * model.n_outputs) (neg highest))
        | _ ↦ ok base
      ]

  -- scores[i] *= inv for the first so many scores
  unfoldable pub scale : Carrier → ℕ → List Carrier → Result (List Carrier)
  scale inv zero scores = ok scores
  scale inv (suc n) [] = undefined
  scale inv (suc n) (x ∷ scores) = scale inv n scores >>= λ rest. ok (mul x inv ∷ rest)

  -- apply_aggregation_scale
  unfoldable pub apply_aggregation_scale :
      Aggregation → TreeEnsembleModel Carrier → ℕ → ℕ → List Carrier → Result (List Carrier)
  unfolding scale
  apply_aggregation_scale average model n_samples n_outputs scores =
      if ltb 0 model.n_trees
      then scale (div (literal (pos 1) 0) (of_int (pos model.n_trees))) (n_samples * n_outputs)
          scores
      else ok scores
  apply_aggregation_scale weighted_avg model n_samples n_outputs scores =
      let weight_sum = foldl add (literal (pos 0) 0) model.tree_weights in
      if lt (literal (pos 0) 0) weight_sum
      then scale (div (literal (pos 1) 0) weight_sum) (n_samples * n_outputs) scores
      else ok scores
  apply_aggregation_scale soft_vote model n_samples n_outputs scores =
      if ltb 0 model.n_trees && ltb 0 n_outputs
      then scale (div (of_int (pos n_outputs)) (of_int (pos model.n_trees))) (n_samples * n_outputs)
          scores
      else ok scores
  apply_aggregation_scale _ model n_samples n_outputs scores = ok scores

  -- model.trees[t]
  abbrev pub tree_at : TreeEnsembleModel Carrier → ℕ → Result (FlatTree Carrier)
  tree_at model t = defined (get_elem? model.trees t)

  -- tree.leaf_value[traverse_single(tree, …)]
  unfoldable pub leaf_score :
      TreeEnsembleModel Carrier → List Carrier → Bool → Option ValueStore → ℕ → Result Carrier
  unfolding traverse_single
  leaf_score model row has_nan vs t = do
    tree ← tree_at model t
    node ← traverse_single tree row has_nan vs
    at_int tree.leaf_value node

  -- The loop over the trees of the single-output path.
  unfoldable pub sum_trees :
      TreeEnsembleModel Carrier
      → List Carrier
      → Bool
      → Option ValueStore
      → List Carrier
      → Result (List Carrier)
  unfolding leaf_score add_at
  sum_trees model row has_nan vs out =
      fold_range (λ t out. leaf_score model row has_nan vs t >>= λ v. add_at T (pos 0) v out) 0
        model.n_trees out

  -- partial[tid], from the trees of the share of thread tid
  unfoldable pub partial_sum :
      TreeEnsembleModel Carrier → List Carrier → Bool → Option ValueStore → ℕ → ℕ → Result Carrier
  unfolding leaf_score
  partial_sum model row has_nan vs np tid =
      let t0 = (model.n_trees * tid) / np in
      let t1 = (model.n_trees * suc tid) / np in
      fold_range (λ t acc. leaf_score model row has_nan vs t >>= λ v. ok (add acc v)) t0 (t1 - t0)
        (literal (pos 0) 0)

  unfoldable pub add_partials : List Carrier → List Carrier → Result (List Carrier)
  unfolding add_at
  add_partials [] out = ok out
  add_partials (p ∷ ps) out = add_at T (pos 0) p out >>= add_partials ps

  -- The sums of np threads, added in the order of the threads.
  unfoldable pub sum_parallel :
      TreeEnsembleModel Carrier
      → List Carrier
      → Bool
      → Option ValueStore
      → ℕ
      → List Carrier
      → Result (List Carrier)
  unfolding partial_sum add_partials
  sum_parallel model row has_nan vs np out =
      tabulate (partial_sum model row has_nan vs np) 0 np >>= λ partial. add_partials partial out

  -- output[c] += leaf_vector[off + c] for the entries from c on
  unfoldable pub add_vector : FlatTree Carrier → ℤ → ℕ → ℕ → List Carrier → Result (List Carrier)
  unfolding add_at
  add_vector tree off c n out =
      fold_range (λ j out. at_int tree.leaf_vector (off +ℤ pos j) >>= λ v. add_at T (pos j) v out) c
        n out

  -- What a tree adds to the outputs of one sample in the grouped path.
  unfoldable pub grouped_tree :
      TreeEnsembleModel Carrier
      → List Carrier
      → Bool
      → Option ValueStore
      → ℕ
      → List Carrier
      → Result (List Carrier)
  unfolding traverse_single add_vector class_of add_at
  grouped_tree model row has_nan vs t out = do
    tree ← tree_at model t
    node ← traverse_single tree row has_nan vs
    (if ltb 1 tree.leaf_width
        then (at_int tree.leaf_vector_index node >>= λ off.
            add_vector tree off 0 tree.leaf_width out)
        else (at_int tree.leaf_value node >>= λ v. add_at T (class_of T model.tree_group t) v out))

  unfoldable pub group_trees :
      TreeEnsembleModel Carrier
      → List Carrier
      → Bool
      → Option ValueStore
      → List Carrier
      → Result (List Carrier)
  unfolding grouped_tree
  group_trees model row has_nan vs out =
      fold_range (λ t out. grouped_tree model row has_nan vs t out) 0 model.n_trees out
