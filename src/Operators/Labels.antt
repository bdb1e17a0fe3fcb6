-- ===== src/Operators/Labels.antt =====
-- src/operator_registry.cpp, the domain omle.feature: the binarizers of labels.
use omle_runtime.Prelude.{
  ℕ, zero, suc, Bool, Option, none, some, List, set, replicate, if◌then◌else◌,
}
use omle_runtime.Prelude.Int.{pos}
use omle_runtime.Floats.{Floats, F32, F64}
use omle_runtime.Status.{Result, ok, fold_range, ◌>>=◌}
use omle_runtime.Tensor.{Tensor, Cell, float_cell, get, numel}
use omle_runtime.ValueStore.{get_value, put}
use omle_runtime.Operators.{Operator, attr_i, resolve_t64, out_rows}
use omle_runtime.Operators.Gathered.{with_names, flat_get, float_column}

module _ ⦃fl : Floats⦄ where
  open fl use {f32, f64}

  -- The first class with the value, of `left` classes from k on.
  unfoldable pub find_class : Tensor → F64 → ℕ → ℕ → Result (Option ℕ)
  unfolding flat_get
  find_class classes x k zero = ok none
  find_class classes x k (suc left) =
      let rest = find_class classes x (suc k) left in
      flat_get classes k >>= λ v. if f64.eq v x then ok (some k) else rest

  set_class : Option ℕ → F32 → List Cell → List Cell
  set_class none label row = row
  set_class (some k) label row = set row k (float_cell label)

  -- The tensor of op_label_binarizer: by a half, or one column for each class.
  unfoldable pub binarize_labels : Option Tensor → F32 → F32 → Tensor → ℕ → Result Tensor
  unfolding get numel find_class set_class out_rows float_column
  binarize_labels none neg pos_ src n_rows =
      float_column n_rows
        λ r. get src r 0 >>= λ x. ok (if f64.le (f64.literal (pos 5) 1) x then pos_ else neg)
  binarize_labels (some classes) neg pos_ src n_rows =
      out_rows Bool.false n_rows (numel classes) λ r. get src r 0 >>= λ x.
      find_class classes x 0 (numel classes) >>= λ hit.
      ok (set_class hit pos_ (replicate (numel classes) (float_cell neg)))

  -- op_label_binarizer
  unfoldable pub op_label_binarizer : Operator
  unfolding get_value put resolve_t64 attr_i binarize_labels
  op_label_binarizer ins outs attrs fns vs n_rows = with_names ins outs vs λ i o. do
    src ← get_value vs i
    classes ← resolve_t64 vs ins 1 attrs "classes"
    let neg = f32.of_int (attr_i attrs "neg_label" (pos 0))
    let label = f32.of_int (attr_i attrs "pos_label" (pos 1))
    t ← binarize_labels classes neg label src n_rows
    ok (put o t vs)

  -- The tensor of op_multi_label_binarizer.
  unfoldable pub binarize_label_sets : Option Tensor → Tensor → ℕ → Result Tensor
  unfolding get numel find_class set_class out_rows
  binarize_label_sets none src n_rows = ok src
  binarize_label_sets (some classes) src n_rows = out_rows Bool.false n_rows (numel classes) λ r.
      fold_range
        (λ l row. get src r l >>= λ x. find_class classes x 0 (numel classes) >>= λ hit.
          ok (set_class hit (f32.literal (pos 1) 0) row))
        0 src.n_cols (replicate (numel classes) (float_cell (f32.literal (pos 0) 0)))

  -- op_multi_label_binarizer
  unfoldable pub op_multi_label_binarizer : Operator
  unfolding get_value put resolve_t64 binarize_label_sets
  op_multi_label_binarizer ins outs attrs fns vs n_rows = with_names ins outs vs λ i o. do
    src ← get_value vs i
    classes ← resolve_t64 vs ins 1 attrs "classes"
    t ← binarize_label_sets classes src n_rows
    ok (put o t vs)
