-- ===== src/Operators/Core.antt =====
-- src/operator_registry.cpp, the domain omle.core: copies, selections of columns, bounds and the
-- choice of a class.
use omle_runtime.Prelude.{
  ℕ, ◌-◌, Bool, not, ◌||◌, [], ◌∷◌, String, length, get_elem?, if◌then◌else◌, ◌==◌,
}
use omle_runtime.Prelude.Int.{pos}
use omle_runtime.Floats.{Floats, Float, F64}
use omle_runtime.Status.{Result, ok, defined, fail, invalid_argument, fold_range, ◌>>=◌}
use omle_runtime.Tensor.{Cell, float_cell, double_cell, Tensor, get, numel, read_f32, read_f64}
use omle_runtime.Tensor.Build.{with_elements}
use omle_runtime.ValueStore.{get_value, put}
use omle_runtime.Ast.{attr_float}
use omle_runtime.Operators.{Operator, attr_ints, wrap32, wants_f64, out_buf, owned_elements}
use omle_runtime.Operators.Gathered.{
  with_names, concat_inputs, get_col, update_row, update_rows, float_column,
}

module _ (T : Float) where
  open T use {Carrier, lt}

  -- std::clamp
  unfoldable pub clamp : Carrier → Carrier → Carrier → Carrier
  clamp v lo hi = if lt v lo then lo else if lt hi v then hi else v

module _ ⦃fl : Floats⦄ where
  open fl use {f32, f64, narrow}

  -- op_identity
  unfoldable pub op_identity : Operator
  unfolding get_value put
  op_identity [] outs attrs fns vs n_rows = ok vs
  op_identity (i ∷ ins) [] attrs fns vs n_rows = ok vs
  op_identity (i ∷ ins) (o ∷ outs) attrs fns vs n_rows =
      get_value vs i >>= λ t. op_identity ins outs attrs fns (put o t vs) n_rows

  -- op_concat
  unfoldable pub op_concat : Operator
  unfolding concat_inputs put
  op_concat ins outs attrs fns vs n_rows =
      with_names ins outs vs λ i o. concat_inputs vs ins n_rows >>= λ t. ok (put o t vs)

  -- op_gather
  unfoldable pub op_gather : Operator
  unfolding get_value put attr_ints wrap32 wants_f64 out_buf get_col
  op_gather ins outs attrs fns vs n_rows = with_names ins outs vs λ i o. do
    src ← get_value vs i
    let cols = attr_ints attrs "indices"
    let picked =
        out_buf (wants_f64 src) n_rows (length cols)
          λ r j. defined (get_elem? cols j) >>= λ c. get_col src r (wrap32 c)
    t ← (if length cols == 0 then ok src else picked)
    ok (put o t vs)

  -- p[i] = std::clamp(p[i], tlo, thi), at the width
  unfoldable pub clamp_cell : Bool → F64 → F64 → Cell → Result Cell
  unfolding clamp read_f32 read_f64
  clamp_cell wide lo hi c =
      if wide
      then (read_f64 c >>= λ x. ok (double_cell (clamp f64 x lo hi)))
      else (read_f32 c >>= λ x. ok (float_cell (clamp f32 x (narrow lo) (narrow hi))))

  -- The loop of op_clip over all the elements of its copy of the source.
  unfoldable pub clip_tensor : F64 → F64 → Tensor → Result Tensor
  unfolding update_rows update_row clamp_cell numel owned_elements with_elements wants_f64
  clip_tensor lo hi src =
      update_rows (update_row (λ i. clamp_cell (wants_f64 src) lo hi) 0) 1 (numel src)
        (owned_elements src)
      >>= λ cells. ok (with_elements src cells)

  -- op_clip
  unfoldable pub op_clip : Operator
  unfolding get_value put attr_float clip_tensor
  op_clip ins outs attrs fns vs n_rows = with_names ins outs vs λ i o. do
    src ← get_value vs i
    let lo = attr_float attrs "min" (f64.neg f64.infinity)
    let hi = attr_float attrs "max" f64.infinity
    t ← clip_tensor lo hi src
    ok (put o t vs)

  -- if (v > best) { best = v; best_idx = c; }
  unfoldable pub better : F64 → ℕ → F64 × ℕ → F64 × ℕ
  better v c (best, best_idx) = if f64.lt best v then (v, c) else (best, best_idx)

  -- The loop of op_argmax over the columns of one row.
  unfoldable pub row_argmax : Tensor → ℕ → Result ℕ
  unfolding better get
  row_argmax src r =
      fold_range (λ c best. get src r c >>= λ v. ok (better v c best)) 0 src.n_cols
        (f64.neg f64.infinity, 0)
      >>= λ (best, best_idx). ok best_idx

  -- op_argmax
  unfoldable pub op_argmax : Operator
  unfolding get_value put row_argmax float_column
  op_argmax ins outs attrs fns vs n_rows = with_names ins outs vs λ i o. do
    src ← get_value vs i
    t ← float_column n_rows (λ r. row_argmax src r >>= λ k. ok (f32.of_int (pos k)))
    ok (put o t vs)

  -- Whether column c beats the best one so far: a higher primary score, or an equal one and a
  -- higher secondary score.
  unfoldable pub beats : Tensor → Tensor → ℕ → ℕ → ℕ → Result Bool
  unfolding get
  beats primary secondary r best c = do
    p ← get primary r c
    pb ← get primary r best
    let tied = get secondary r c >>= λ s. get secondary r best >>= λ sb. ok (f64.lt sb s)
    (if f64.lt pb p then ok Bool.true else (if f64.eq p pb then tied else ok Bool.false))

  -- The loop over the columns of one row.
  unfoldable pub best_column : Tensor → Tensor → ℕ → Result ℕ
  unfolding beats
  best_column primary secondary r =
      fold_range (λ c best. beats primary secondary r best c >>= λ b. ok (if b then c else best)) 1
        (primary.n_cols - 1) 0

  abbrev select_error : String
  select_error =
      "omle.core/SelectByPrimarySecondaryScore: primary_scores and secondary_scores are required"

  abbrev shape_error : String
  shape_error =
      "omle.core/SelectByPrimarySecondaryScore: primary_scores and secondary_scores must have the same shape"

  -- op_select_by_primary_secondary_score
  unfoldable pub op_select_by_scores : Operator
  unfolding get_value put best_column float_column
  op_select_by_scores (i ∷ j ∷ ins) (o ∷ outs) attrs fns vs n_rows = do
    primary ← get_value vs i
    secondary ← get_value vs j
    let chosen =
        float_column n_rows (λ r. best_column primary secondary r >>= λ k. ok (f32.of_int (pos k)))
    (if not (primary.n_rows == secondary.n_rows) || not (primary.n_cols == secondary.n_cols)
        then fail invalid_argument shape_error
        else (chosen >>= λ t. ok (put o t vs)))
  op_select_by_scores ins outs attrs fns vs n_rows = fail invalid_argument select_error
