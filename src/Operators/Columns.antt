-- ===== src/Operators/Columns.antt =====
-- src/operator_registry.cpp, the domain omle.core: casts, shapes and sections of columns.
use omle_runtime.Prelude.{
  ℕ, zero, suc, ◌+◌, ◌*◌, ◌/◌, Bool, ◌&&◌, ◌||◌, Option, some, List, [], ◌∷◌, String, length,
  get_elem?, if◌then◌else◌, ◌==◌, lookup, same, has_key,
}
use omle_runtime.Prelude.Int.{ℤ, pos, negsuc, eqb_ℤ}
use omle_runtime.Floats.{Floats, round}
use omle_runtime.Status.{Result, ok, undefined, defined, ◌>>=◌}
use omle_runtime.Tensor.{
  Cell, float_cell, double_cell, Tensor, get, numel, is_sparse, read_f32, read_f64,
}
use omle_runtime.Tensor.Build.{with_elements}
use omle_runtime.Tensor.Convert.{to_float32, to_float64}
use omle_runtime.ValueStore.{ValueStore, root, child, get_value, put}
use omle_runtime.Ast.{AttrVal, attr_ints_val}
use omle_runtime.Operators.{
  Operator, attr_ints, attr_s, wrap32, wants_f64, out_buf, out_cells, owned_of, owned_elements,
  view_w,
}
use omle_runtime.Operators.Gathered.{with_names, concat_inputs, offset, update_row, update_rows}

module _ ⦃fl : Floats⦄ where
  open fl use {f32, f64}

  -- p[i] = std::round(p[i]), at the width
  unfoldable pub round_cell : Bool → Cell → Result Cell
  unfolding read_f32 read_f64
  round_cell wide c =
      if wide
      then (read_f64 c >>= λ x. ok (double_cell (f64.math1 round x)))
      else (read_f32 c >>= λ x. ok (float_cell (f32.math1 round x)))

  unfoldable pub round_tensor : Tensor → Result Tensor
  unfolding owned_of wants_f64 update_rows update_row round_cell numel owned_elements with_elements
  round_tensor src = do
    res ← owned_of (wants_f64 src) src
    cells ←
        update_rows (update_row (λ i. round_cell (wants_f64 src)) 0) 1 (numel res)
          (owned_elements res)
    ok (with_elements res cells)

  -- The tensor that op_cast makes for the name of a type.
  unfoldable pub cast_to : String → Tensor → Result Tensor
  unfolding to_float32 to_float64 round_tensor
  cast_to dtype src =
      if same dtype "float64"
      then to_float64 src
      else (if same dtype "int32" || same dtype "int64" then round_tensor src else to_float32 src)

  -- op_cast
  unfoldable pub op_cast : Operator
  unfolding get_value put attr_s cast_to
  op_cast ins outs attrs fns vs n_rows = with_names ins outs vs λ i o. do
    src ← get_value vs i
    t ← cast_to (attr_s attrs "output_dtype" "float32") src
    ok (put o t vs)

  -- The division of integers, which C++ leaves undefined for a zero.
  quotient : ℕ → ℕ → Result ℕ
  quotient a zero = undefined
  quotient a (suc b) = ok (a / suc b)

  -- An extent; the model's tensors have no negative ones.
  extent : ℤ → Result ℕ
  unfolding wrap32
  extent z = elim (wrap32 z) [ pos n ↦ ok n | negsuc n ↦ undefined ]

  -- `z == -1 ? total / other : z`
  extent_or : ℤ → ℕ → Result ℕ → Result ℕ
  unfolding quotient extent
  extent_or z total other = if eqb_ℤ z (negsuc 0) then (other >>= quotient total) else extent z

  -- The rows and columns for the attribute new_shape.
  unfoldable pub new_extents : List ℤ → ℕ → ℕ → Result (ℕ × ℕ)
  unfolding extent_or
  new_extents [] total n_rows = ok (n_rows, 1)
  new_extents (c ∷ []) total n_rows = extent_or c total (ok n_rows) >>= λ cols. ok (n_rows, cols)
  new_extents (r ∷ c ∷ more) total n_rows = do
    rows ← extent_or r total (extent c)
    cols ← extent_or c total (ok rows)
    ok (rows, cols)

  -- The source of op_reshape: a sparse one is expanded.
  unfoldable pub grid_of : Tensor → Result Tensor
  unfolding is_sparse wants_f64 to_float32 to_float64
  grid_of src =
      if is_sparse src then (if wants_f64 src then to_float64 src else to_float32 src) else ok src

  reshape_by : Option AttrVal → ℕ → Tensor → Result Tensor
  unfolding new_extents numel grid_of
  reshape_by (some (attr_ints_val sh)) n_rows src = do
    (rows, cols) ← new_extents sh (numel src) n_rows
    t ← grid_of src
    ok (record t { n_rows = rows; n_cols = cols })
  reshape_by _ n_rows src = ok src

  -- op_reshape
  unfoldable pub op_reshape : Operator
  unfolding get_value put lookup reshape_by
  op_reshape ins outs attrs fns vs n_rows = with_names ins outs vs λ i o. do
    src ← get_value vs i
    t ← reshape_by (lookup "new_shape" attrs) n_rows src
    ok (put o t vs)

  -- Whether the name is a value of the scope itself, which `put` overwrites in place.
  unfoldable pub is_local : ValueStore → String → Bool
  unfolding has_key
  is_local (root vs cs) name = has_key name vs
  is_local (child vs cs p) name = has_key name vs

  -- The loop of op_split. `src` is a reference into the store: an output of the same name replaces
  -- what it refers to. `f64` is that of the source at the start.
  unfoldable pub split_sections :
      Bool → String → ℕ → ℕ → List ℤ → List String → Tensor → ValueStore → Result ValueStore
  unfolding extent out_buf get put is_local
  split_sections wide i n_rows off [] outs src vs = ok vs
  split_sections wide i n_rows off (z ∷ secs) [] src vs = ok vs
  split_sections wide i n_rows off (z ∷ secs) (o ∷ outs) src vs = do
    w ← extent z
    seg ← out_buf wide n_rows w (λ r c. get src r (off + c))
    let now = if same o i && is_local vs i then seg else src
    split_sections wide i n_rows (off + w) secs outs now (put o seg vs)

  -- op_split
  unfoldable pub op_split : Operator
  unfolding get_value put attr_ints split_sections wants_f64
  op_split ins outs attrs fns vs n_rows = with_names ins outs vs λ i o. do
    src ← get_value vs i
    let secs = attr_ints attrs "sections"
    (if length secs == 0
        then ok (put o src vs)
        else split_sections (wants_f64 src) i n_rows 0 secs outs src vs)

  -- wp[r * wc + cols[j]]
  unfoldable pub wide_entry : List Cell → ℕ → List ℤ → ℕ → ℕ → Result Cell
  unfolding offset wrap32
  wide_entry cells wc cols r j = do
    z ← defined (get_elem? cols j)
    k ← offset (r * wc) (wrap32 z)
    defined (get_elem? cells k)

  -- op_take_slots
  unfoldable pub op_take_slots : Operator
  unfolding concat_inputs put attr_ints wants_f64 view_w out_cells wide_entry
  op_take_slots ins outs attrs fns vs n_rows = with_names ins outs vs λ i o. do
    src ← concat_inputs vs ins n_rows
    let cols = attr_ints attrs "indices"
    let picked = view_w (wants_f64 src) src >>= λ cells.
        out_cells (wants_f64 src) n_rows (length cols) (wide_entry cells src.n_cols cols)
    t ← (if length cols == 0 then ok src else picked)
    ok (put o t vs)
