-- ===== src/Ensemble/General.antt =====
-- src/nodes/tree_ensemble_node.cpp: the general path of predict_impl, for weights, vector leaves and any
-- aggregation. `highest` is std::numeric_limits<T>::max().
use omle_runtime.Prelude.{
  ℕ, ◌+◌, ◌*◌, Bool, ◌&&◌, Option, none, some, List, [], ◌∷◌, replicate, set, get_elem?, ltb, ◌==◌,
  if◌then◌else◌,
}
use omle_runtime.Prelude.Int.{ℤ, pos, negsuc, ◌+ℤ◌}
use omle_runtime.Floats.{Floats, Float}
use omle_runtime.Status.{Result, ok, undefined, defined, fold_range, ◌>>=◌}
use omle_runtime.ValueStore.{ValueStore}
use omle_runtime.PostTransform.{apply_post_transform}
use omle_runtime.Ensemble.{
  Aggregation, minimum, maximum, FlatTree, TreeEnsembleModel, at_int, step_default, step_nonan,
  eval_split, below,
}
use omle_runtime.Ensemble.Forest.{class_of}
use omle_runtime.Ensemble.Batch.{
  levels, rounds, row_at, traverse_batch_accum, traverse_complex_batch,
}
use omle_runtime.Ensemble.Single.{apply_aggregation_scale, tree_at}

module _ ⦃fl : Floats⦄ (T : Float) (is_nan : T.Carrier → Bool) (highest : T.Carrier) where
  open T use {Carrier, lt, add, mul, literal}

  -- dispatch_batch
  unfoldable pub dispatch_batch :
      FlatTree Carrier
      → List Carrier
      → ℕ
      → ℕ
      → Option ValueStore
      → List Carrier
      → ℕ
      → Result (List Carrier)
  unfolding traverse_complex_batch traverse_batch_accum
  dispatch_batch tree features n_samples n_feat vs scores cidx =
      elim (if tree.has_complex then vs else none) [
        | some store ↦
            traverse_complex_batch T is_nan tree features n_samples n_feat store scores cidx
        | none ↦ traverse_batch_accum T is_nan tree features n_samples n_feat scores cidx
      ]

  -- The switch over the aggregation: std::min, std::max or the sum.
  unfoldable pub combine : Aggregation → Carrier → Carrier → Carrier
  combine minimum dst val = if lt val dst then val else dst
  combine maximum dst val = if lt dst val then val else dst
  combine _ dst val = add dst val

  -- *dst = …, with dst = output + i
  unfoldable pub combine_at : Aggregation → ℤ → Carrier → List Carrier → Result (List Carrier)
  unfolding combine
  combine_at agg (pos i) val out =
      defined (get_elem? out i) >>= λ dst. ok (set out i (combine agg dst val))
  combine_at agg (negsuc i) val out = undefined

  -- The scores of a tree, with its weight, into column c of the outputs.
  unfoldable pub combine_column :
      TreeEnsembleModel Carrier
      → Carrier
      → ℤ
      → ℕ
      → List Carrier
      → List Carrier
      → Result (List Carrier)
  unfolding combine_at
  combine_column model weight c n_samples scores out =
      fold_range
        (λ s out. defined (get_elem? scores s) >>= λ v.
          combine_at model.aggregation (pos (s * model.n_outputs) +ℤ c) (mul v weight) out)
        0 n_samples out

  -- The vector of a leaf, with the weight of its tree, into the outputs of sample s.
  combine_leaf :
      TreeEnsembleModel Carrier
      → FlatTree Carrier
      → Carrier
      → List ℤ
      → ℕ
      → List Carrier
      → Result (List Carrier)
  unfolding combine_at
  combine_leaf model tree weight nodes s out = do
    node ← defined (get_elem? nodes s)
    off ← at_int tree.leaf_vector_index node
    fold_range
        (λ j out. at_int tree.leaf_vector (off +ℤ pos j) >>= λ v.
          combine_at model.aggregation (pos (s * model.n_outputs + j)) (mul v weight) out)
        0 model.n_outputs out

  vector_step : FlatTree Carrier → List Carrier → ℕ → ℕ → ℤ → ℤ → Result ℤ
  unfolding step_nonan step_default below eval_split
  vector_step tree features n_feat i node feat =
      if tree.all_less_than && tree.default_right
      then step_nonan T is_nan (below T is_nan) tree (row_at T is_nan features n_feat i) node feat
      else step_default T is_nan (eval_split T is_nan) tree (row_at T is_nan features n_feat i) node
          feat

  -- One tree of the general path.
  unfoldable pub general_tree :
      TreeEnsembleModel Carrier
      → List Carrier
      → ℕ
      → ℕ
      → Option ValueStore
      → ℕ
      → List Carrier
      → Result (List Carrier)
  unfolding dispatch_batch combine_column levels vector_step combine_leaf class_of
  general_tree model features n_samples n_feat vs t out = do
    let blank = replicate n_samples (literal (pos 0) 0)
    tree ← tree_at T is_nan highest model t
    weight ← (elim model.tree_weights [
      | [] ↦ ok (literal (pos 1) 0)
      | w ∷ ws ↦ defined (get_elem? (w ∷ ws) t)
    ])
    let scores = λ (c : ℕ). dispatch_batch tree features n_samples n_feat vs blank c
    (if ltb 1 tree.leaf_width
        then fold_range
            (λ c out. scores c >>= λ ss. combine_column model weight (pos c) n_samples ss out) 0
            tree.leaf_width out
        else if tree.leaf_width == 1
        then (scores 0 >>= λ ss.
            combine_column model weight (class_of T model.tree_group t) n_samples ss out)
        else (levels T is_nan (vector_step tree features n_feat) tree (rounds T is_nan tree)
              (replicate n_samples (pos 0)) n_samples
            >>= λ nodes. fold_range (combine_leaf model tree weight nodes) 0 n_samples out))

  -- apply_aggregation_scale, then apply_post_transform
  unfoldable pub finish : TreeEnsembleModel Carrier → ℕ → List Carrier → Result (List Carrier)
  unfolding apply_aggregation_scale apply_post_transform
  finish model n_samples out =
      apply_aggregation_scale T is_nan highest model.aggregation model n_samples model.n_outputs out
      >>= λ scores. apply_post_transform T scores n_samples model.n_outputs model.post_transform

  -- The general path.
  unfoldable pub general_path :
      TreeEnsembleModel Carrier
      → List Carrier
      → ℕ
      → ℕ
      → Option ValueStore
      → List Carrier
      → Result (List Carrier)
  unfolding general_tree finish
  general_path model features n_samples n_feat vs out =
      fold_range (general_tree model features n_samples n_feat vs) 0 model.n_trees out
      >>= finish model n_samples
