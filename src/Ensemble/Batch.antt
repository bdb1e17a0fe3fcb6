-- ===== src/Ensemble/Batch.antt =====
-- src/nodes/tree_ensemble_node.cpp: all samples through one tree, level by level, and what its leaves
-- add to the scores.
use omle_runtime.Prelude.{
  ℕ, zero, suc, ◌*◌, Bool, true, false, not, ◌&&◌, Option, none, some, List, [], ◌∷◌, drop,
  replicate, get_elem?, ◌==◌, if◌then◌else◌,
}
use omle_runtime.Prelude.Int.{ℤ, pos, ◌+ℤ◌}
use omle_runtime.Floats.{Floats, Float}
use omle_runtime.Status.{Result, ok, undefined, defined, fold_range, value, ◌>>=◌}
use omle_runtime.Ast.{Pred}
use omle_runtime.ValueStore.{ValueStore}
use omle_runtime.Predicates.{eval_pred}
use omle_runtime.Ensemble.{
  FlatTree, at_int, is_negative, find_pred, step_default, eval_split, below, child,
  traverse_one_le_nonan, traverse_one_lt_nonan,
}
use omle_runtime.Ensemble.Walks.{add_at}

module _ ⦃fl : Floats⦄ (T : Float) (is_nan : T.Carrier → Bool) where
  open T use {Carrier, lt, add}

  -- One round of a loop over the samples, from sample i on: the nodes after it, and how many samples
  -- were not at a leaf. `step i node feat` is where sample i goes.
  unfoldable pub level :
      (ℕ → ℤ → ℤ → Result ℤ) → FlatTree Carrier → ℕ → List ℤ → Result (List ℤ × ℕ)
  level step tree i [] = ok ([], 0)
  level step tree i (node ∷ nodes) = do
    feat ← at_int tree.feature node
    next ← (if is_negative feat then ok node else step i node feat)
    (rest, active) ← level step tree (suc i) nodes
    ok (next ∷ rest, if is_negative feat then active else suc active)

  -- while (active > 0), with fuel for the rounds
  unfoldable pub levels :
      (ℕ → ℤ → ℤ → Result ℤ) → FlatTree Carrier → ℕ → List ℤ → ℕ → Result (List ℤ)
  unfolding level
  levels step tree fuel nodes zero = ok nodes
  levels step tree zero nodes (suc active) = undefined
  levels step tree (suc fuel) nodes (suc active) =
      level step tree 0 nodes >>= λ p. levels step tree fuel p.0 p.1

  -- One round takes each sample a level down, and one more round finds all at their leaves.
  abbrev pub rounds : FlatTree Carrier → ℕ
  rounds tree = suc (suc tree.n_nodes)

  -- accum_leaves, from sample i on
  unfoldable pub accum_leaves : List Carrier → List ℤ → List Carrier → Result (List Carrier)
  accum_leaves leaf_value [] scores = ok scores
  accum_leaves leaf_value (node ∷ nodes) [] = undefined
  accum_leaves leaf_value (node ∷ nodes) (s ∷ scores) = do
    v ← at_int leaf_value node
    rest ← accum_leaves leaf_value nodes scores
    ok (add s v ∷ rest)

  -- leaf_vector[leaf_vector_index[node] + class_idx]
  unfoldable pub vector_entry : FlatTree Carrier → ℤ → ℕ → Result Carrier
  vector_entry tree node class_idx =
      at_int tree.leaf_vector_index node >>= λ off. at_int tree.leaf_vector (off +ℤ pos class_idx)

  unfoldable pub accum_vectors :
      FlatTree Carrier → ℕ → List ℤ → List Carrier → Result (List Carrier)
  unfolding vector_entry
  accum_vectors tree class_idx [] scores = ok scores
  accum_vectors tree class_idx (node ∷ nodes) [] = undefined
  accum_vectors tree class_idx (node ∷ nodes) (s ∷ scores) = do
    v ← vector_entry tree node class_idx
    rest ← accum_vectors tree class_idx nodes scores
    ok (add s v ∷ rest)

  accum : FlatTree Carrier → ℕ → List ℤ → List Carrier → Result (List Carrier)
  unfolding accum_leaves accum_vectors
  accum tree class_idx nodes scores =
      if tree.leaf_width == 1
      then accum_leaves tree.leaf_value nodes scores
      else accum_vectors tree class_idx nodes scores

  -- traverse_batch_stump
  unfoldable pub traverse_batch_stump :
      FlatTree Carrier → List Carrier → ℕ → ℕ → List Carrier → Result (List Carrier)
  unfolding add_at
  traverse_batch_stump tree features n_samples n_features scores = do
    feat ← at_int tree.feature (pos 0)
    thr ← at_int tree.threshold (pos 0)
    l ← at_int tree.left_child (pos 0)
    lv ← at_int tree.leaf_value l
    r ← at_int tree.right_child (pos 0)
    rv ← at_int tree.leaf_value r
    fold_range
        (λ i out. at_int (drop (i * n_features) features) feat >>= λ fval.
          add_at T (pos i) (if lt fval thr then lv else rv) out)
        0 n_samples scores

  abbrev pub row_at : List Carrier → ℕ → ℕ → List Carrier
  row_at features n_features i = drop (i * n_features) features

  batch_step : FlatTree Carrier → List Carrier → ℕ → ℕ → ℤ → ℤ → Result ℤ
  unfolding step_default below eval_split
  batch_step tree features n_features i node feat =
      if tree.all_less_than
      then step_default T is_nan (below T is_nan) tree (row_at features n_features i) node feat
      else step_default T is_nan (eval_split T is_nan) tree (row_at features n_features i) node feat

  -- traverse_batch_accum
  unfoldable pub traverse_batch_accum :
      FlatTree Carrier → List Carrier → ℕ → ℕ → List Carrier → ℕ → Result (List Carrier)
  unfolding levels batch_step accum traverse_batch_stump
  traverse_batch_accum tree features n_samples n_features scores class_idx =
      if (tree.n_nodes == 3 && tree.all_less_than) && tree.leaf_width == 1
      then traverse_batch_stump tree features n_samples n_features scores
      else (levels (batch_step tree features n_features) tree (rounds tree)
            (replicate n_samples (pos 0)) n_samples
          >>= λ nodes. accum tree class_idx nodes scores)

  run_pred : Option Pred → ValueStore → ℕ → Result Bool
  run_pred none vs n_samples = ok false
  run_pred (some p) vs n_samples = value (eval_pred p vs n_samples) >>= λ r. ok true

  -- The first loop of a round of traverse_complex_batch: it evaluates the predicates of the nodes that
  -- samples are at, and throws the first error.
  unfoldable pub evaluate_level : FlatTree Carrier → ValueStore → ℕ → List ℤ → Result Bool
  unfolding find_pred run_pred
  evaluate_level tree vs n_samples [] = ok true
  evaluate_level tree vs n_samples (node ∷ nodes) = do
    feat ← at_int tree.feature node
    seen ←
        run_pred (if is_negative feat then none else find_pred tree.complex_preds node) vs n_samples
    evaluate_level tree vs n_samples nodes

  -- (*cp)[i] != 0
  unfoldable pub hit_at : Pred → ValueStore → ℕ → ℕ → Result Bool
  hit_at p vs n_samples i = value (eval_pred p vs n_samples) >>= λ hits.
      defined (get_elem? hits i) >>= λ h. ok (not (h == 0))

  complex_step : FlatTree Carrier → List Carrier → ℕ → ValueStore → ℕ → ℕ → ℤ → ℤ → Result ℤ
  unfolding find_pred hit_at step_default eval_split
  complex_step tree features n_features vs n_samples i node feat =
      elim (find_pred (if tree.has_complex then tree.complex_preds else []) node) [
        | some p ↦ hit_at p vs n_samples i >>= child T is_nan tree node
        | none ↦
            step_default T is_nan (eval_split T is_nan) tree (row_at features n_features i) node
              feat
      ]

  unfoldable pub complex_levels :
      FlatTree Carrier → List Carrier → ℕ → ValueStore → ℕ → ℕ → List ℤ → ℕ → Result (List ℤ)
  unfolding level evaluate_level complex_step
  complex_levels tree features n_features vs n_samples fuel nodes zero = ok nodes
  complex_levels tree features n_features vs n_samples zero nodes (suc active) = undefined
  complex_levels tree features n_features vs n_samples (suc fuel) nodes (suc active) = do
    seen ← evaluate_level tree vs n_samples nodes
    (next, left) ← level (complex_step tree features n_features vs n_samples) tree 0 nodes
    complex_levels tree features n_features vs n_samples fuel next left

  -- traverse_complex_batch
  unfoldable pub traverse_complex_batch :
      FlatTree Carrier
      → List Carrier
      → ℕ
      → ℕ
      → ValueStore
      → List Carrier
      → ℕ
      → Result (List Carrier)
  unfolding complex_levels accum
  traverse_complex_batch tree features n_samples n_features vs scores class_idx =
      complex_levels tree features n_features vs n_samples (rounds tree)
        (replicate n_samples (pos 0)) n_samples
      >>= λ nodes. accum tree class_idx nodes scores

  -- traverse_block_simple
  unfoldable pub traverse_block_simple :
      Bool → FlatTree Carrier → List Carrier → ℕ → ℕ → List Carrier → Result (List Carrier)
  unfolding add_at traverse_one_le_nonan traverse_one_lt_nonan
  traverse_block_simple use_le tree features block_n n_features scores =
      fold_range
        (λ i out.
          (if use_le
            then traverse_one_le_nonan T is_nan tree (row_at features n_features i)
            else traverse_one_lt_nonan T is_nan tree (row_at features n_features i))
          >>= λ node. at_int tree.leaf_value node >>= λ v. add_at T (pos i) v out)
        0 block_n scores
