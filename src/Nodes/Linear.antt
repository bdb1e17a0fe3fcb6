-- ===== src/Nodes/Linear.antt =====
-- src/nodes/linear_node.cpp: linear models, by the loops of the build, which add the same products in
-- different orders. The factories and Impl only hold the model.
use omle_runtime.Prelude.{
  ℕ, ◌+◌, ◌*◌, ◌/◌, ltb, Bool, true, false, ◌&&◌, some, List, [], ◌∷◌, String, map, get_elem?, set,
  replicate, length, if◌then◌else◌, ◌==◌,
}
use omle_runtime.Prelude.Int.{pos}
use omle_runtime.Floats.{Floats, Float, F32, F64}
use omle_runtime.Status.{Result, ok, defined, tabulate, fold_range, map_result, ◌>>=◌}
use omle_runtime.Tensor.{
  float32, float64, int64, Cell, float_cell, double_cell, int_cell, elements, read_f32, read_f64,
}
use omle_runtime.Tensor.Build.{make_dense, with_elements}
use omle_runtime.ValueStore.{ValueStore, put}
use omle_runtime.ValueStore.Slots.{dense_of, gather_slots, scatter_outputs}
use omle_runtime.PostTransform.{PostTransform, sigmoid, apply_post_transform}
use omle_runtime.Ensemble.Node.{binary_prob, row_labels}
use omle_runtime.Executor.{GraphNode}
use omle_runtime.Nodes.Dot.{
  Registers, Loops, scalar_loops, avx2_loops, neon_loops, dot, block_score,
}

-- LinearModelT
pub record LinearModel (A : Type 0) : Type 0 where
  pub coefficients : List A
  pub intercept : List A
  pub post_transform : PostTransform
  pub n_features : ℕ
  pub n_outputs : ℕ

unfoldable pub is_sigmoid : PostTransform → Bool
is_sigmoid sigmoid = true
is_sigmoid _ = false

module _ (T : Float) where
  open T use {Carrier, literal, lt, add}

  -- intercept[j], or zero where there is no intercept
  unfoldable pub bias_of : LinearModel Carrier → ℕ → Result Carrier
  bias_of model j =
      if length model.intercept == 0
      then ok (literal (pos 0) 0)
      else defined (get_elem? model.intercept j)

  -- The score of sample s: in the first blocks of four samples, and behind them.
  unfoldable pub single_score :
      Loops Carrier → LinearModel Carrier → List Carrier → Carrier → ℕ → ℕ → Result Carrier
  unfolding dot block_score
  single_score loops model features b n_samples s =
      let nf = model.n_features in
      let plain = dot T loops features (s * nf) model.coefficients 0 nf >>= λ d. ok (add d b) in
      let blocked = λ (r : Registers Carrier).
        let in_block = block_score T r features (s * nf) model.coefficients nf b in
        if ltb s (n_samples / 4 * 4) then in_block else plain in
      elim loops [ scalar_loops ↦ plain | avx2_loops r ↦ blocked r | neon_loops r ↦ blocked r ]

  -- predict_single_output
  unfoldable pub predict_single_output :
      Loops Carrier → LinearModel Carrier → List Carrier → ℕ → Result (List Carrier)
  unfolding single_score bias_of
  predict_single_output loops model features n_samples =
      bias_of model 0 >>= λ b. tabulate (single_score loops model features b n_samples) 0 n_samples

  -- output[i] = v
  unfoldable pub store_at : ℕ → Carrier → List Carrier → Result (List Carrier)
  store_at i v output = defined (get_elem? output i) >>= λ old. ok (set output i v)

  -- The loop over the samples, for output j.
  unfoldable pub predict_output :
      Loops Carrier
      → LinearModel Carrier
      → List Carrier
      → ℕ
      → ℕ
      → List Carrier
      → Result (List Carrier)
  unfolding dot bias_of store_at
  predict_output loops model features n_samples j output = do
    bj ← bias_of model j
    fold_range
        (λ s out.
          dot T loops features (s * model.n_features) model.coefficients (j * model.n_features)
            model.n_features
          >>= λ d. store_at (s * model.n_outputs + j) (add d bj) out)
        0 n_samples output

  -- predict_multi_output
  unfoldable pub predict_multi_output :
      Loops Carrier → LinearModel Carrier → List Carrier → ℕ → Result (List Carrier)
  unfolding predict_output
  predict_multi_output loops model features n_samples =
      fold_range (predict_output loops model features n_samples) 0 model.n_outputs
        (replicate (n_samples * model.n_outputs) (literal (pos 0) 0))

  -- LinearImplT::compute
  unfoldable pub compute_linear :
      Loops Carrier → LinearModel Carrier → List Carrier → ℕ → Result (List Carrier)
  unfolding predict_single_output predict_multi_output apply_post_transform
  compute_linear loops model features n_rows =
      (if model.n_outputs == 1
        then predict_single_output loops model features n_rows
        else predict_multi_output loops model features n_rows)
      >>= λ scores. apply_post_transform T scores n_rows model.n_outputs model.post_transform

  -- The label of a row with one score: a tie is class 0.
  unfoldable pub linear_label : Carrier → ℕ
  linear_label p = if lt (literal (pos 5) 1) p then 1 else 0

module _ ⦃fl : Floats⦄ where
  open fl use {f32, f64, widen, narrow}

  -- The labels, and the probabilities with their number of columns, of the branch for two outputs.
  unfoldable pub linear_labelled :
      (T : Float) → ℕ → ℕ → List T.Carrier → Result (List ℕ × ℕ × List T.Carrier)
  unfolding linear_label row_labels
  linear_labelled T n_out n_rows scores =
      if n_out == 1
      then ok (map (linear_label T) scores, 2, binary_prob T scores)
      else (row_labels T n_out n_rows scores >>= λ labels. ok (labels, n_out, scores))

  -- LinearNode::execute, once the scores are there
  unfoldable pub put_linear :
      (T : Float)
      → (T.Carrier → Cell)
      → Bool
      → PostTransform
      → List String
      → ℕ
      → ℕ
      → List T.Carrier
      → ValueStore
      → Result ValueStore
  unfolding linear_labelled scatter_outputs put is_sigmoid
  put_linear T cell wide pt (y_pred ∷ y_prob ∷ []) n_out n_rows scores vs = do
    (labels, cols, probs) ← linear_labelled T n_out n_rows scores
    let prob = dense_of wide n_rows cols (map cell probs)
    let pred = with_elements (make_dense int64 n_rows 1) (map (λ n. int_cell int64 (pos n)) labels)
    ok (put y_pred pred (put y_prob prob vs))
  put_linear T cell wide pt (name ∷ []) n_out n_rows scores vs =
      if n_out == 1 && is_sigmoid pt
      then ok (put name (dense_of wide n_rows 2 (map cell (binary_prob T scores))) vs)
      else scatter_outputs wide (name ∷ []) (map cell scores) n_rows n_out vs
  put_linear T cell wide pt names n_out n_rows scores vs =
      scatter_outputs wide names (map cell scores) n_rows n_out vs

  -- LinearNode::Impl
  pub data LinearImpl : Type 0 where
    float_linear : LinearModel F32 → LinearImpl
    double_linear : LinearModel F64 → LinearImpl

  module _ (loops32 : Loops F32) (loops64 : Loops F64) where
    -- LinearNode::execute
    unfoldable pub execute_linear : LinearImpl → List String → List String → GraphNode
    unfolding gather_slots elements read_f32 read_f64 compute_linear put_linear
    execute_linear (float_linear model) in_names out_names fns vs n_rows = do
      t ← gather_slots vs in_names n_rows (some float32)
      features ← map_result read_f32 (elements t)
      scores ← compute_linear f32 loops32 model features n_rows
      put_linear f32 float_cell false model.post_transform out_names model.n_outputs n_rows scores
          vs
    execute_linear (double_linear model) in_names out_names fns vs n_rows = do
      t ← gather_slots vs in_names n_rows (some float64)
      features ← map_result read_f64 (elements t)
      scores ← compute_linear f64 loops64 model features n_rows
      put_linear f64 double_cell true model.post_transform out_names model.n_outputs n_rows scores
          vs

    -- LinearExecutor::predict, of floats and of doubles
    unfoldable pub linear_floats : LinearImpl → List F32 → ℕ → Result (List F32)
    unfolding compute_linear
    linear_floats (float_linear model) features n_samples =
        compute_linear f32 loops32 model features n_samples
    linear_floats (double_linear model) features n_samples =
        compute_linear f64 loops64 model (map widen features) n_samples >>= λ ss. ok (map narrow ss)

    unfoldable pub linear_doubles : LinearImpl → List F64 → ℕ → Result (List F64)
    unfolding compute_linear
    linear_doubles (float_linear model) features n_samples =
        compute_linear f32 loops32 model (map narrow features) n_samples >>= λ ss. ok (map widen ss)
    linear_doubles (double_linear model) features n_samples =
        compute_linear f64 loops64 model features n_samples
