-- ===== src/Operators/Buckets.antt =====
-- src/operator_registry.cpp, the domain omle.feature: buckets between boundaries, and missing values.
use omle_runtime.Prelude.{
  ℕ, zero, suc, ◌+◌, ◌*◌, Bool, Option, none, some, List, [], ◌∷◌, String, map, length, get_elem?,
  ltb, if◌then◌else◌, lookup, range_from,
}
use omle_runtime.Prelude.Int.{ℤ, pos, pos_part, ◌-ℤ◌, ◌+ℤ◌}
use omle_runtime.Floats.{Floats, F32, F64, is_nan_safe32, is_nan_safe64}
use omle_runtime.Status.{Result, ok, defined, tabulate, ◌>>=◌}
use omle_runtime.Tensor.{Cell, float_cell, Tensor, get, numel, read_f32, read_f64}
use omle_runtime.Tensor.Build.{from_doubles}
use omle_runtime.ValueStore.{ValueStore, get_value, put}
use omle_runtime.Ast.{AttrVal, AttributeMap, attr_floats_val, attr_float}
use omle_runtime.Operators.{
  Operator, resolve_t, resolve_t64, wants_f64, out_cell, out_cells, owned_elements,
}
use omle_runtime.Operators.Gathered.{
  with_names, source_tensor, get_col, flat_get, parameter, entry_of, update_row, rewrite_rows,
  float_column,
}

module _ ⦃fl : Floats⦄ where
  open fl use {f32, f64, narrow}

  -- The boundaries of the attribute itself.
  inline_boundaries : Option AttrVal → Option Tensor
  unfolding from_doubles
  inline_boundaries (some (attr_floats_val xs)) = some (from_doubles 1 (length xs) xs)
  inline_boundaries _ = none

  -- bnd_t
  unfoldable pub boundaries : ValueStore → List String → AttributeMap → Result (Option Tensor)
  unfolding resolve_t64 lookup inline_boundaries
  boundaries vs ins attrs = resolve_t64 vs ins (length ins) attrs "boundaries" >>= λ t. elim t [
    | some x ↦ ok (some x)
    | none ↦ ok (inline_boundaries (lookup "boundaries" attrs))
  ]

  -- The loop of bucket_for, of n boundaries from k on: those up to x, until one is above.
  unfoldable pub count_boundaries : (ℤ → Result F64) → F64 → ℤ → ℕ → ℕ → Result ℕ
  count_boundaries boundary x k zero bucket = ok bucket
  count_boundaries boundary x k (suc n) bucket =
      let more = count_boundaries boundary x (k +ℤ pos 1) n (suc bucket) in
      boundary k >>= λ b. if f64.le b x then more else ok bucket

  -- static_cast<int>(off_t->get(0, i))
  offset_at : Tensor → ℕ → Result ℤ
  unfolding get
  offset_at t i = get t 0 i >>= λ x. ok (f64.to_int Bool.true 32 x)

  -- Where the boundaries of a column start and end.
  unfoldable pub bucket_range : Tensor → Option Tensor → ℕ → Result (ℤ × ℤ)
  unfolding numel offset_at
  bucket_range bnd none col = ok (pos 0, pos (numel bnd))
  bucket_range bnd (some off) col =
      let stored = offset_at off col >>= λ a. offset_at off (col + 1) >>= λ b. ok (a, b) in
      if ltb (col + 1) (numel off) then stored else ok (pos 0, pos (numel bnd))

  -- bucket_for
  unfoldable pub bucket_for : Tensor → Option Tensor → F64 → ℕ → Result ℕ
  unfolding bucket_range count_boundaries get_col
  bucket_for bnd off x col = bucket_range bnd off col >>= λ (first, end).
      count_boundaries (get_col bnd 0) x first (pos_part (end -ℤ first)) 0

  -- static_cast<float> of the bucket, through a double
  unfoldable pub bucket_float : ℕ → F32
  bucket_float b = narrow (f64.of_int (pos b))

  -- The loop over several inputs, from the i-th on.
  unfoldable pub bucket_columns :
      Tensor → Option Tensor → ℕ → List String → List String → ℕ → ValueStore → Result ValueStore
  unfolding get_value get bucket_for bucket_float put float_column
  bucket_columns bnd off i [] outs n_rows vs = ok vs
  bucket_columns bnd off i (name ∷ ins) [] n_rows vs = ok vs
  bucket_columns bnd off i (name ∷ ins) (o ∷ outs) n_rows vs = do
    src ← get_value vs name
    t ←
        float_column n_rows
          λ r. get src r 0 >>= λ x. bucket_for bnd off x i >>= λ b. ok (bucket_float b)
    bucket_columns bnd off (suc i) ins outs n_rows (put o t vs)

  -- The single input.
  unfoldable pub bucket_table : Tensor → Option Tensor → Tensor → ℕ → Result Tensor
  unfolding get bucket_for bucket_float out_cells
  bucket_table bnd off src n_rows =
      out_cells Bool.false n_rows src.n_cols
        λ r c. get src r c >>= λ x. bucket_for bnd off x c >>= λ b. ok (float_cell (bucket_float b))

  bucketize :
      Option Tensor → Option Tensor → List String → List String → ℕ → ValueStore → Result ValueStore
  unfolding bucket_columns bucket_table get_value put
  bucketize none off ins outs n_rows vs = ok vs
  bucketize (some bnd) off (i ∷ []) (o ∷ outs) n_rows vs =
      get_value vs i >>= λ src. bucket_table bnd off src n_rows >>= λ t. ok (put o t vs)
  bucketize (some bnd) off ins outs n_rows vs = bucket_columns bnd off 0 ins outs n_rows vs

  -- op_bucketizer
  unfoldable pub op_bucketizer : Operator
  unfolding boundaries resolve_t bucketize
  op_bucketizer ins outs attrs fns vs n_rows = with_names ins outs vs λ i o. do
    bnd ← boundaries vs ins attrs
    off ← resolve_t vs ins (length ins) attrs "boundary_offsets"
    bucketize bnd off ins outs n_rows vs

  fill_at : Option (List Cell) → F64 → ℕ → Result F64
  unfolding entry_of
  fill_at none fill f = ok fill
  fill_at (some stats) fill f = entry_of stats f

  -- The body of the loop of op_simple_imputer.
  unfoldable pub impute_cell : Option (List Cell) → F64 → Bool → ℕ → Cell → Result Cell
  unfolding read_f32 read_f64 fill_at out_cell
  impute_cell stats fill wide f c = do
    missing ←
        (if wide
          then (read_f64 c >>= λ x. ok (is_nan_safe64 x))
          else (read_f32 c >>= λ x. ok (is_nan_safe32 x)))
    (if missing then (fill_at stats fill f >>= λ v. ok (out_cell wide v)) else ok c)

  -- One column of the imputed tensor for each output, from column i on, with `left` columns to go.
  unfoldable pub put_imputed :
      Bool → Tensor → ℕ → ℕ → ℕ → List String → ValueStore → Result ValueStore
  unfolding owned_elements out_cells put
  put_imputed wide src n_rows i left [] vs = ok vs
  put_imputed wide src n_rows i zero (o ∷ outs) vs = ok vs
  put_imputed wide src n_rows i (suc left) (o ∷ outs) vs = do
    col ←
        out_cells wide n_rows 1
          (λ r c. defined (get_elem? (owned_elements src) (r * src.n_cols + i)))
    put_imputed wide src n_rows (suc i) left outs (put o col vs)

  -- op_simple_imputer
  unfoldable pub op_simple_imputer : Operator
  unfolding source_tensor parameter attr_float impute_cell wants_f64 rewrite_rows update_row
      put_imputed put
  op_simple_imputer ins outs attrs fns vs n_rows = with_names ins outs vs λ i o. do
    src ← source_tensor vs ins n_rows
    stats ← parameter vs ins attrs "fill_tensor"
    let fill = attr_float attrs "fill_value" (f64.literal (pos 0) 0)
    t ← rewrite_rows (update_row (impute_cell stats fill (wants_f64 src)) 0) n_rows src
    (if ltb 1 (length outs)
        then put_imputed (wants_f64 src) t n_rows 0 t.n_cols outs vs
        else ok (put o t vs))

  listed_features : Option Tensor → Result (List ℤ)
  unfolding numel flat_get
  listed_features none = ok []
  listed_features (some t) =
      tabulate (λ i. flat_get t i >>= λ x. ok (f64.to_int Bool.true 32 x)) 0 (numel t)

  -- The columns that op_missing_indicator looks at: all where none is listed.
  unfoldable pub indicated : List ℤ → ℕ → List ℤ
  indicated [] nf = map pos (range_from 0 nf)
  indicated (z ∷ zs) nf = z ∷ zs

  -- op_missing_indicator
  unfoldable pub op_missing_indicator : Operator
  unfolding source_tensor resolve_t listed_features indicated get_col out_cells put
  op_missing_indicator ins outs attrs fns vs n_rows = with_names ins outs vs λ i o. do
    src ← source_tensor vs ins n_rows
    listed ← resolve_t vs ins (length ins) attrs "feature_indices" >>= listed_features
    let cols = indicated listed src.n_cols
    t ← out_cells Bool.false n_rows (length cols) λ r j. defined (get_elem? cols j) >>= λ c.
        get_col src r c >>= λ x. ok (float_cell (f32.literal (pos (if f64.eq x x then 0 else 1)) 0))
    ok (put o t vs)
