-- ===== src/Ensemble/Node.antt =====
-- src/nodes/tree_ensemble_node.cpp: the models that a node keeps, TreeEnsembleNode::execute and
-- TreeEnsembleExecutor::predict.
use omle_runtime.Prelude.{
  ℕ, suc, ◌+◌, ◌*◌, Bool, true, false, not, ◌&&◌, ◌||◌, Option, none, some, List, [], ◌∷◌, map,
  get_elem?, String, if◌then◌else◌, ◌==◌,
}
use omle_runtime.Prelude.Int.{pos}
use omle_runtime.Floats.{Floats, Float, F32, F64, is_nan_safe32, is_nan_safe64}
use omle_runtime.Status.{Result, ok, defined, tabulate, map_result, ◌>>=◌}
use omle_runtime.Tensor.{
  float32, float64, int64, Cell, float_cell, double_cell, int_cell, elements, read_f32, read_f64,
}
use omle_runtime.Tensor.Build.{make_dense, with_elements}
use omle_runtime.ValueStore.{ValueStore, put}
use omle_runtime.ValueStore.Slots.{dense_of, gather_slots, scatter_outputs}
use omle_runtime.Ensemble.{FlatTree, TreeEnsembleModel}
use omle_runtime.Ensemble.Forest.{build_aos_for_tree, detect_uniform_depth, build_flat_forest}
use omle_runtime.Ensemble.Predict.{predict_impl}

module _ ⦃fl : Floats⦄ where
  open fl use {f32, f64, widen, narrow}

  -- make_flat_tree, by the conversion of one number
  unfoldable pub make_flat_tree : {A : Type 0} → (F64 → A) → FlatTree F64 → FlatTree A
  make_flat_tree cast tree = record {
    n_nodes = tree.n_nodes;
    leaf_width = tree.leaf_width;
    uniform_depth = 0;
    feature = tree.feature;
    threshold = map cast tree.threshold;
    left_child = tree.left_child;
    right_child = tree.right_child;
    default_child = tree.default_child;
    split_op = tree.split_op;
    leaf_value = map cast tree.leaf_value;
    leaf_vector = map cast tree.leaf_vector;
    leaf_vector_index = tree.leaf_vector_index;
    category_set = tree.category_set;
    cat_offset = tree.cat_offset;
    cat_count = tree.cat_count;
    complex_preds = tree.complex_preds;
    aos_nodes = [];
    all_less_than = tree.all_less_than;
    all_less_equal = tree.all_less_equal;
    default_right = tree.default_right;
    has_complex = tree.has_complex;
  }

  -- build_float_model
  unfoldable pub build_float_model : TreeEnsembleModel F64 → TreeEnsembleModel F32
  unfolding make_flat_tree
  build_float_model model = record {
    trees = map (make_flat_tree narrow) model.trees;
    aggregation = model.aggregation;
    post_transform = model.post_transform;
    tree_weights = map narrow model.tree_weights;
    base_scores = map narrow model.base_scores;
    tree_group = model.tree_group;
    n_features = model.n_features;
    n_outputs = model.n_outputs;
    n_trees = model.n_trees;
    flat_forest = record {
      all_nodes = [];
      roots = [];
      tree_class = [];
      forest_depth = 0;
      all_le = false;
      valid = false;
    };
  }

  -- The loop of finalize_model, for one tree.
  finalize_tree : (T : Float) → ℕ → FlatTree T.Carrier → Result (FlatTree T.Carrier)
  unfolding build_aos_for_tree detect_uniform_depth
  finalize_tree T fuel tree = build_aos_for_tree T tree >>= λ t.
      if (t.all_less_than || t.all_less_equal) && not t.has_complex
      then (detect_uniform_depth T fuel t >>= λ d. ok (record t { uniform_depth = d }))
      else ok t

  -- finalize_model, with fuel for the scans of a tree's depth
  unfoldable pub finalize_model :
      (T : Float) → ℕ → TreeEnsembleModel T.Carrier → Result (TreeEnsembleModel T.Carrier)
  unfolding finalize_tree build_flat_forest
  finalize_model T fuel model = map_result (finalize_tree T fuel) model.trees >>= λ trees.
      build_flat_forest T fuel (record model { trees = trees })

  -- TreeEnsembleNode::Impl
  pub data Impl : Type 0 where
    float_impl : TreeEnsembleModel F32 → Impl
    double_impl : TreeEnsembleModel F64 → Impl

  unfoldable pub impl_wide : Impl → Bool
  impl_wide (float_impl model) = false
  impl_wide (double_impl model) = true

  unfoldable pub impl_outputs : Impl → ℕ
  impl_outputs (float_impl model) = model.n_outputs
  impl_outputs (double_impl model) = model.n_outputs

  unfoldable pub impl_features : Impl → ℕ
  impl_features (float_impl model) = model.n_features
  impl_features (double_impl model) = model.n_features

  -- The factories: a model of either width, made ready.
  unfoldable pub make_tree_ensemble_impl : ℕ → TreeEnsembleModel F32 → Result Impl
  unfolding finalize_model
  make_tree_ensemble_impl fuel model = finalize_model f32 fuel model >>= λ m. ok (float_impl m)

  unfoldable pub make_tree_ensemble_impl_f64 : ℕ → TreeEnsembleModel F64 → Result Impl
  unfolding finalize_model
  make_tree_ensemble_impl_f64 fuel model = finalize_model f64 fuel model >>= λ m. ok (double_impl m)

  -- std::max_element over a row: the first of its largest, from entry i on.
  unfoldable pub max_element : (T : Float) → List T.Carrier → ℕ → ℕ → T.Carrier → ℕ
  max_element T [] i best top = best
  max_element T (x ∷ xs) i best top =
      if T.lt top x then max_element T xs (suc i) i x else max_element T xs (suc i) best top

  unfoldable pub arg_max : (T : Float) → List T.Carrier → ℕ
  unfolding max_element
  arg_max T [] = 0
  arg_max T (x ∷ xs) = max_element T xs 1 0 x

  -- The label and the two probabilities of a row with one score.
  unfoldable pub binary_label : (T : Float) → T.Carrier → ℕ
  binary_label T p = if T.le (T.literal (pos 5) 1) p then 1 else 0

  abbrev pub binary_prob : (T : Float) → List T.Carrier → List T.Carrier
  binary_prob T [] = []
  binary_prob T (p ∷ ps) = T.sub (T.literal (pos 1) 0) p ∷ p ∷ binary_prob T ps

  -- The labels of rows of n_out scores.
  unfoldable pub row_labels : (T : Float) → ℕ → ℕ → List T.Carrier → Result (List ℕ)
  unfolding arg_max
  row_labels T n_out n_rows scores =
      tabulate
        (λ r. tabulate (λ j. defined (get_elem? scores (r * n_out + j))) 0 n_out >>= λ row.
          ok (arg_max T row))
        0 n_rows

  -- The branch of execute for two outputs, at one width: the labels and the probabilities.
  unfoldable pub labelled :
      (T : Float) → ℕ → ℕ → List T.Carrier → Result (List ℕ × ℕ × List T.Carrier)
  unfolding binary_label row_labels
  labelled T n_out n_rows scores =
      if n_out == 1
      then ok (map (binary_label T) scores, 2, binary_prob T scores)
      else (row_labels T n_out n_rows scores >>= λ labels. ok (labels, n_out, scores))

  label_cell : ℕ → Cell
  label_cell n = int_cell int64 (pos n)

  -- execute, once the scores are there
  unfoldable pub put_scores :
      (T : Float)
      → (T.Carrier → Cell)
      → Bool
      → List String
      → ℕ
      → ℕ
      → List T.Carrier
      → ValueStore
      → Result ValueStore
  unfolding labelled scatter_outputs put label_cell
  put_scores T cell wide (y_pred ∷ y_prob ∷ []) n_out n_rows scores vs = do
    (labels, cols, probs) ← labelled T n_out n_rows scores
    let prob = dense_of wide n_rows cols (map cell probs)
    let pred = with_elements (make_dense int64 n_rows 1) (map label_cell labels)
    ok (put y_pred pred (put y_prob prob vs))
  put_scores T cell wide names n_out n_rows scores vs =
      scatter_outputs wide names (map cell scores) n_rows n_out vs

  -- The largest numbers of the two types, of std::numeric_limits.
  module _ (highest32 : F32) (highest64 : F64) where
    abbrev scores32 :
        TreeEnsembleModel F32 → List F32 → ℕ → ℕ → Option ValueStore → Option ℕ → Result (List F32)
    scores32 model features n_features n_rows vs pool =
        predict_impl f32 is_nan_safe32 highest32 4 model features n_rows vs n_features pool

    abbrev scores64 :
        TreeEnsembleModel F64 → List F64 → ℕ → ℕ → Option ValueStore → Option ℕ → Result (List F64)
    scores64 model features n_features n_rows vs pool =
        predict_impl f64 is_nan_safe64 highest64 8 model features n_rows vs n_features pool

    -- TreeEnsembleNode::execute; `pool` is the size of the pool that set_pool has set
    unfoldable pub execute_trees :
        Impl → Option ℕ → List String → List String → ValueStore → ℕ → Result ValueStore
    unfolding gather_slots put_scores elements read_f32 read_f64
    execute_trees (float_impl model) pool in_names out_names vs n_rows = do
      t ← gather_slots vs in_names n_rows (some float32)
      features ← map_result read_f32 (elements t)
      scores ← scores32 model features t.n_cols n_rows (some vs) pool
      put_scores f32 float_cell false out_names model.n_outputs n_rows scores vs
    execute_trees (double_impl model) pool in_names out_names vs n_rows = do
      t ← gather_slots vs in_names n_rows (some float64)
      features ← map_result read_f64 (elements t)
      scores ← scores64 model features t.n_cols n_rows (some vs) pool
      put_scores f64 double_cell true out_names model.n_outputs n_rows scores vs

    -- TreeEnsembleExecutor::predict, of floats and of doubles
    unfoldable pub predict_floats : Impl → Option ℕ → List F32 → ℕ → Result (List F32)
    predict_floats (float_impl model) pool features n_samples =
        scores32 model features model.n_features n_samples none pool
    predict_floats (double_impl model) pool features n_samples =
        scores64 model (map widen features) model.n_features n_samples none pool >>= λ ss.
        ok (map narrow ss)

    unfoldable pub predict_doubles : Impl → Option ℕ → List F64 → ℕ → Result (List F64)
    predict_doubles (float_impl model) pool features n_samples =
        scores32 model (map narrow features) model.n_features n_samples none pool >>= λ ss.
        ok (map widen ss)
    predict_doubles (double_impl model) pool features n_samples =
        scores64 model features model.n_features n_samples none pool
