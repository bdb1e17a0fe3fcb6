-- ===== src/Operators/Binarizer.antt =====
-- src/operator_registry.cpp, op_binarizer: elements above a threshold become 1, the others 0.
use omle_runtime.Prelude.{
  ℕ, suc, Bool, Option, none, some, List, [], ◌∷◌, String, length, ltb, ◌&&◌, if◌then◌else◌, ◌*◌,
}
use omle_runtime.Prelude.Int.{pos}
use omle_runtime.Floats.{Floats, Float, F64}
use omle_runtime.Status.{Result, ok, undefined, map_result, ◌>>=◌}
use omle_runtime.Tensor.{Cell, float_cell, double_cell, Tensor, get, numel, read_f32, read_f64}
use omle_runtime.Tensor.Build.{with_elements}
use omle_runtime.Tensor.Convert.{first_cells}
use omle_runtime.ValueStore.{ValueStore, get_value, put}
use omle_runtime.ValueStore.Slots.{dense_of}
use omle_runtime.Ast.{AttributeMap, attr_float}
use omle_runtime.Operators.{Operator, resolve_t, view_w, wants_f64, owned_elements}
use omle_runtime.Operators.Gathered.{with_names, source_tensor, update_row, update_rows}

module _ (T : Float) where
  open T use {Carrier, literal, lt}

  -- v > thr ? T(1) : T(0)
  unfoldable pub above : Carrier → Carrier → Carrier
  above thr v = if lt thr v then literal (pos 1) 0 else literal (pos 0) 0

module _ ⦃fl : Floats⦄ where
  open fl use {f32, f64, narrow}

  -- One element at the width; the threshold is rounded to it.
  unfoldable pub binarize_cell : Bool → F64 → Cell → Result Cell
  unfolding above read_f32 read_f64
  binarize_cell wide thr c =
      if wide
      then (read_f64 c >>= λ x. ok (double_cell (above f64 thr x)))
      else (read_f32 c >>= λ x. ok (float_cell (above f32 (narrow thr) x)))

  -- The threshold of column i where there are several outputs.
  unfoldable pub threshold_at : Option Tensor → AttributeMap → ℕ → Result F64
  unfolding get numel attr_float
  threshold_at none attrs i = ok (attr_float attrs "threshold" (f64.literal (pos 0) 0))
  threshold_at (some t) attrs i =
      if ltb i (numel t)
      then get t 0 i
      else ok (attr_float attrs "threshold" (f64.literal (pos 0) 0))

  -- The threshold of a single output.
  unfoldable pub first_threshold : Option Tensor → AttributeMap → Result F64
  unfolding get attr_float
  first_threshold none attrs = ok (attr_float attrs "threshold" (f64.literal (pos 0) 0))
  first_threshold (some t) attrs = get t 0 0

  -- One output of several: the first numel() elements of a new tensor of n_rows rows are written.
  unfoldable pub binarize_column : Tensor → F64 → ℕ → Result Tensor
  unfolding numel wants_f64 view_w binarize_cell first_cells
  binarize_column src thr n_rows =
      let cells =
        view_w (wants_f64 src) src
        >>= first_cells (numel src)
        >>= map_result (binarize_cell (wants_f64 src) thr) in
      let rest = λ (written : List Cell). ok (dense_of (wants_f64 src) n_rows src.n_cols written) in
      if ltb (n_rows * src.n_cols) (numel src) then undefined else (cells >>= rest)

  -- The loop over the outputs, from the i-th on.
  unfoldable pub binarize_columns :
      Option Tensor
      → AttributeMap
      → ℕ
      → List String
      → List String
      → ℕ
      → ValueStore
      → Result ValueStore
  unfolding get_value threshold_at binarize_column put
  binarize_columns thr_t attrs i [] outs n_rows vs = ok vs
  binarize_columns thr_t attrs i (name ∷ ins) [] n_rows vs = ok vs
  binarize_columns thr_t attrs i (name ∷ ins) (o ∷ outs) n_rows vs = do
    src ← get_value vs name
    thr ← threshold_at thr_t attrs i
    t ← binarize_column src thr n_rows
    binarize_columns thr_t attrs (suc i) ins outs n_rows (put o t vs)

  -- The single output: all elements of the copy of the source.
  unfoldable pub binarize_tensor : F64 → Tensor → Result Tensor
  unfolding update_rows update_row binarize_cell wants_f64 numel owned_elements with_elements
  binarize_tensor thr src =
      update_rows (update_row (λ i. binarize_cell (wants_f64 src) thr) 0) 1 (numel src)
        (owned_elements src)
      >>= λ cells. ok (with_elements src cells)

  -- op_binarizer
  unfoldable pub op_binarizer : Operator
  unfolding resolve_t binarize_columns source_tensor first_threshold binarize_tensor put
  op_binarizer ins outs attrs fns vs n_rows = with_names ins outs vs λ i o.
      resolve_t vs ins (length ins) attrs "thresholds" >>= λ thr_t.
      let single = source_tensor vs ins n_rows >>= λ src.
      first_threshold thr_t attrs >>= λ thr. binarize_tensor thr src >>= λ t. ok (put o t vs) in
      if ltb 1 (length outs) && ltb 1 (length ins)
      then binarize_columns thr_t attrs 0 ins outs n_rows vs
      else single
