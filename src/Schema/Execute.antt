-- ===== src/Schema/Execute.antt =====
-- src/model_schema.cpp: ModelSchemaNode::execute.
use omle_runtime.Prelude.{ℕ, Bool, List, [], ◌∷◌, ◌++◌, String, length, if◌then◌else◌, same}
use omle_runtime.Prelude.Int.{pos}
use omle_runtime.Floats.{Floats, F64}
use omle_runtime.Status.{Result, ok, tabulate, map_result, ◌>>=◌}
use omle_runtime.Tensor.{
  Tensor, float64, Cell, float_cell, double_cell, is_string, same_dtype, at, f64_at,
}
use omle_runtime.Tensor.Build.{make_f32, make_dense, with_elements}
use omle_runtime.ValueStore.{ValueStore, get_value, put}
use omle_runtime.Schema.{SchemaFeature, apply_schema}

module _ ⦃fl : Floats⦄ where
  open fl use {f32, f64, widen, narrow}

  -- ModelSchemaNode
  pub record ModelSchemaNode : Type 0 where
    pub features : List SchemaFeature
    pub batch_mode : Bool
    pub batch_key : String

  -- A double is decided on as a float, and kept as it is where the schema leaves it alone.
  unfoldable pub adjust64 : SchemaFeature → F64 → F64
  adjust64 feat raw =
      let adj = apply_schema feat (narrow raw) in if f32.eq adj (narrow raw) then raw else widen adj

  -- The value of one feature in row r of a float64 source, of any other source.
  unfoldable pub cell64 : Tensor → ℕ → SchemaFeature → Result Cell
  cell64 src r feat = f64_at src r feat.col >>= λ raw. ok (double_cell (adjust64 feat raw))

  unfoldable pub cell32 : Tensor → ℕ → SchemaFeature → Result Cell
  cell32 src r feat = at src r feat.col >>= λ raw. ok (float_cell (apply_schema feat raw))

  abbrev pub concat : List (List Cell) → List Cell
  concat [] = []
  concat (xs ∷ xss) = xs ++ concat xss

  abbrev pub new_f32 : ℕ → ℕ → List Cell → Tensor
  new_f32 rows cols cells = with_elements (make_f32 rows cols (f32.literal (pos 0) 0)) cells

  abbrev pub new_f64 : ℕ → ℕ → List Cell → Tensor
  new_f64 rows cols cells = with_elements (make_dense float64 rows cols) cells

  -- The wide tensor of the batch mode: a row of all the features for each row of the source.
  unfoldable pub batch_tensor : List SchemaFeature → Tensor → ℕ → Result Tensor
  batch_tensor feats src n =
      if same_dtype src.dtype float64
      then (tabulate (λ r. map_result (cell64 src r) feats) 0 n >>= λ rs.
          ok (new_f64 n (length feats) (concat rs)))
      else (tabulate (λ r. map_result (cell32 src r) feats) 0 n >>= λ rs.
          ok (new_f32 n (length feats) (concat rs)))

  -- The column of one feature.
  unfoldable pub feature_tensor : SchemaFeature → Tensor → ℕ → Result Tensor
  feature_tensor feat src n =
      if same_dtype src.dtype float64
      then (tabulate (λ r. cell64 src r feat) 0 n >>= λ cs. ok (new_f64 n 1 cs))
      else (tabulate (λ r. cell32 src r feat) 0 n >>= λ cs. ok (new_f32 n 1 cs))

  -- The body of the loop over the features. Text passes through as it is.
  unfoldable pub run_feature : ValueStore → SchemaFeature → ℕ → Result ValueStore
  run_feature vs feat n = get_value vs feat.source >>= λ src.
      if is_string src
      then ok (if same feat.name feat.source then vs else put feat.name src vs)
      else (feature_tensor feat src n >>= λ t. ok (put feat.name t vs))

  unfoldable pub run_features : List SchemaFeature → ValueStore → ℕ → Result ValueStore
  run_features [] vs n = ok vs
  run_features (feat ∷ feats) vs n = run_feature vs feat n >>= λ vs'. run_features feats vs' n

  run_batch : ModelSchemaNode → List SchemaFeature → ValueStore → ℕ → Result ValueStore
  run_batch node [] vs n = ok vs
  run_batch node (feat ∷ feats) vs n = get_value vs feat.source >>= λ src.
      if is_string src
      then run_features (feat ∷ feats) vs n
      else (batch_tensor (feat ∷ feats) src n >>= λ t. ok (put node.batch_key t vs))

  -- ModelSchemaNode::execute, on the store that it changes
  unfoldable pub execute_schema : ModelSchemaNode → ValueStore → ℕ → Result ValueStore
  unfolding run_batch
  execute_schema node vs n =
      if node.batch_mode then run_batch node node.features vs n else run_features node.features vs n
