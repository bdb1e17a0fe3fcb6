-- ===== src/Operators/Scalers.antt =====
-- src/operator_registry.cpp, the domain omle.feature: the scalers, the binarizer and the normalizer,
-- which rewrite the rows of their source in place and compute in double at either width.
use omle_runtime.Prelude.{
  ℕ, Bool, Option, none, some, List, String, foldl, length, if◌then◌else◌, same,
}
use omle_runtime.Prelude.Int.{pos}
use omle_runtime.Floats.{Floats, F64, abs, sqrt}
use omle_runtime.Status.{Result, ok, map_result, ◌>>=◌}
use omle_runtime.Tensor.{Cell, Tensor}
use omle_runtime.ValueStore.{ValueStore, put}
use omle_runtime.Ast.{AttributeMap, attr_float}
use omle_runtime.Operators.{Operator, attr_s, resolve_t64, view_w, wants_f64, read_wide, out_cell}
use omle_runtime.Operators.Gathered.{
  with_names, source_tensor, parameter, entry_of, update_row, rewrite_rows,
}

module _ ⦃fl : Floats⦄ where
  open fl use {f32, f64, narrow}

  -- `if (mean) v -= mean[f];`
  unfoldable pub shift_by : Option (List Cell) → ℕ → F64 → Result F64
  unfolding entry_of
  shift_by none f v = ok v
  shift_by (some mean) f v = entry_of mean f >>= λ m. ok (f64.sub v m)

  -- x != 0.0 ? v / x : v
  unfoldable pub divide_unless_zero : F64 → F64 → F64
  divide_unless_zero v x = if f64.eq x (f64.literal (pos 0) 0) then v else f64.div v x

  -- `if (scale && scale[f] != 0.0) v /= scale[f];`
  unfoldable pub scale_by : Option (List Cell) → ℕ → F64 → Result F64
  unfolding entry_of divide_unless_zero
  scale_by none f v = ok v
  scale_by (some scale) f v = entry_of scale f >>= λ s. ok (divide_unless_zero v s)

  -- standard_scaler_impl, one element
  unfoldable pub standard_cell :
      Bool → Option (List Cell) → Option (List Cell) → ℕ → Cell → Result Cell
  unfolding read_wide shift_by scale_by out_cell
  standard_cell wide mean scale f c = do
    v ← read_wide wide c
    shifted ← shift_by mean f v
    scaled ← scale_by scale f shifted
    ok (out_cell wide scaled)

  -- resolve_t64 and view_w<double>
  unfoldable pub exact_parameter :
      ValueStore → List String → AttributeMap → String → Result (Option (List Cell))
  unfolding resolve_t64 view_w
  exact_parameter vs ins attrs aname = resolve_t64 vs ins (length ins) attrs aname >>= λ t. elim t [
    | none ↦ ok none
    | some x ↦ view_w Bool.true x >>= λ cells. ok (some cells)
  ]

  -- An operator that rewrites the rows of its source by elements.
  unfoldable pub rewrite_source :
      (Bool → ℕ → Cell → Result Cell) → Tensor → String → ℕ → ValueStore → Result ValueStore
  unfolding rewrite_rows update_row wants_f64 put
  rewrite_source step src o n_rows vs =
      rewrite_rows (update_row (step (wants_f64 src)) 0) n_rows src >>= λ t. ok (put o t vs)

  -- op_standard_scaler
  unfoldable pub op_standard_scaler : Operator
  unfolding source_tensor exact_parameter standard_cell rewrite_source
  op_standard_scaler ins outs attrs fns vs n_rows = with_names ins outs vs λ i o. do
    src ← source_tensor vs ins n_rows
    mean ← exact_parameter vs ins attrs "mean"
    scale ← exact_parameter vs ins attrs "scale"
    rewrite_source (λ wide. standard_cell wide mean scale) src o n_rows vs

  -- minmax_scaler_impl, one element
  unfoldable pub minmax_cell :
      Bool → Option (List Cell) → Option (List Cell) → F64 → F64 → ℕ → Cell → Result Cell
  unfolding read_wide shift_by scale_by out_cell
  minmax_cell wide data_min data_scale feat_min feat_max f c = do
    v ← read_wide wide c
    shifted ← shift_by data_min f v
    scaled ← scale_by data_scale f shifted
    ok (out_cell wide (f64.add (f64.mul scaled (f64.sub feat_max feat_min)) feat_min))

  -- op_minmax_scaler
  unfoldable pub op_minmax_scaler : Operator
  unfolding source_tensor parameter attr_float minmax_cell rewrite_source
  op_minmax_scaler ins outs attrs fns vs n_rows = with_names ins outs vs λ i o. do
    src ← source_tensor vs ins n_rows
    data_min ← parameter vs ins attrs "data_min"
    data_scale ← parameter vs ins attrs "data_max"
    let feat_min = attr_float attrs "feature_range_min" (f64.literal (pos 0) 0)
    let feat_max = attr_float attrs "feature_range_max" (f64.literal (pos 1) 0)
    rewrite_source (λ wide. minmax_cell wide data_min data_scale feat_min feat_max) src o n_rows vs

  -- op_robust_scaler
  unfoldable pub op_robust_scaler : Operator
  unfolding source_tensor parameter standard_cell rewrite_source
  op_robust_scaler ins outs attrs fns vs n_rows = with_names ins outs vs λ i o. do
    src ← source_tensor vs ins n_rows
    center ← parameter vs ins attrs "center"
    scale ← parameter vs ins attrs "scale"
    rewrite_source (λ wide. standard_cell wide center scale) src o n_rows vs

  -- The body of the loop of op_max_abs_scaler: an element over a zero stays as it is.
  unfoldable pub max_abs_cell : List Cell → Bool → ℕ → Cell → Result Cell
  unfolding entry_of read_wide out_cell
  max_abs_cell scale wide f c = entry_of scale f >>= λ s.
      let divided = read_wide wide c >>= λ v. ok (out_cell wide (f64.div v s)) in
      if f64.eq s (f64.literal (pos 0) 0) then ok c else divided

  scale_source : Option (List Cell) → Tensor → String → ℕ → ValueStore → Result ValueStore
  unfolding max_abs_cell rewrite_source put
  scale_source none src o n_rows vs = ok (put o src vs)
  scale_source (some scale) src o n_rows vs = rewrite_source (max_abs_cell scale) src o n_rows vs

  -- op_max_abs_scaler
  unfoldable pub op_max_abs_scaler : Operator
  unfolding source_tensor parameter scale_source
  op_max_abs_scaler ins outs attrs fns vs n_rows = with_names ins outs vs λ i o. do
    src ← source_tensor vs ins n_rows
    scale ← parameter vs ins attrs "scale"
    scale_source scale src o n_rows vs

  -- The norm of a row, computed by name.
  unfoldable pub row_norm : String → List F64 → F64
  row_norm norm row =
      let nought = f64.literal (pos 0) 0 in
      if same norm "l1"
      then foldl (λ n v. f64.add n (f64.math1 abs v)) nought row
      else (if same norm "max"
          then foldl (λ n v. if f64.lt n (f64.math1 abs v) then f64.math1 abs v else n) nought row
          else f64.math1 sqrt (foldl (λ n v. f64.add n (f64.mul v v)) nought row))

  -- normalizer_impl
  unfoldable pub normalize_row : Bool → String → List Cell → Result (List Cell)
  unfolding row_norm read_wide update_row out_cell
  normalize_row wide norm row = do
    values ← map_result (read_wide wide) row
    let n = row_norm norm values
    let divided =
        update_row (λ f c. read_wide wide c >>= λ v. ok (out_cell wide (f64.div v n))) 0 row
    (if f64.lt (f64.literal (pos 1) 12) n then divided else ok row)

  -- op_normalizer
  unfoldable pub op_normalizer : Operator
  unfolding source_tensor attr_s wants_f64 normalize_row rewrite_rows put
  op_normalizer ins outs attrs fns vs n_rows = with_names ins outs vs λ i o. do
    src ← source_tensor vs ins n_rows
    t ← rewrite_rows (normalize_row (wants_f64 src) (attr_s attrs "norm" "l2")) n_rows src
    ok (put o t vs)
