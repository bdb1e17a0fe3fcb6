-- ===== src/Operators/Gathered.antt =====
-- src/operator_registry.cpp: how an operator gathers its inputs into one tensor, reads a parameter and
-- writes elements in place. A tensor that the source holds by a pointer into the store is a copy here:
-- the parameters are constants of the model, which no operator overwrites.
use omle_runtime.Prelude.{
  ℕ, zero, suc, ◌+◌, ◌-◌, ◌*◌, ◌/◌, ◌%◌, Bool, true, false, ◌||◌, Option, none, some, List, [], ◌∷◌,
  ◌++◌, String, map, drop, length, get_elem?, replicate, ltb, if◌then◌else◌,
}
use omle_runtime.Prelude.Int.{ℤ, pos, negsuc}
use omle_runtime.Floats.{Floats, F32, F64}
use omle_runtime.Status.{Result, ok, defined, tabulate, ◌>>=◌}
use omle_runtime.Tensor.{
  float64, dense, sparse, scalar, Cell, float_cell, Tensor, raw_bytes, read_f64, read_elem,
  same_dtype, get,
}
use omle_runtime.Tensor.Build.{make_f32, with_elements}
use omle_runtime.Tensor.Convert.{first_cells}
use omle_runtime.ValueStore.{ValueStore, get_value}
use omle_runtime.ValueStore.Slots.{dense_of, gather_rows, joined_rows}
use omle_runtime.Ast.{AttributeMap}
use omle_runtime.Operators.{resolve_t, view_w, owned_elements}

module _ ⦃fl : Floats⦄ where
  open fl use {f32, f64}

  -- `if (in.empty() || out.empty()) return {};` before the rest of an operator
  abbrev pub with_names :
      List String
      → List String
      → ValueStore
      → (String → String → Result ValueStore)
      → Result ValueStore
  with_names (i ∷ ins) (o ∷ outs) vs body = body i o
  with_names _ _ vs body = ok vs

  -- The number of columns of all the inputs, and whether one of them is of doubles.
  unfoldable pub concat_shape : ValueStore → List String → Result (ℕ × Bool)
  unfolding get_value same_dtype
  concat_shape vs [] = ok (0, false)
  concat_shape vs (name ∷ names) = do
    t ← get_value vs name
    (total, wide) ← concat_shape vs names
    ok (t.n_cols + total, same_dtype t.dtype float64 || wide)

  -- concat_inputs; its loops over the inputs are those of gather_slots
  unfoldable pub concat_inputs : ValueStore → List String → ℕ → Result Tensor
  unfolding concat_shape gather_rows joined_rows make_f32
  concat_inputs vs [] n_rows = ok (make_f32 n_rows 0 (f32.literal (pos 0) 0))
  concat_inputs vs ins n_rows = do
    (total, wide) ← concat_shape vs ins
    rows ← gather_rows wide vs ins (replicate n_rows [])
    ok (dense_of wide n_rows total (joined_rows rows))

  -- `multi ? concat_inputs(vs, in, n_rows) : vs.get(in[0])`
  unfoldable pub source_tensor : ValueStore → List String → ℕ → Result Tensor
  unfolding concat_inputs get_value
  source_tensor vs (name ∷ []) n_rows = get_value vs name
  source_tensor vs ins n_rows = concat_inputs vs ins n_rows

  -- The position before `base` by n + 1, where the buffer has it.
  abbrev pub before : ℕ → ℕ → Option ℕ
  before base n = if ltb n base then some (base - 1 - n) else none

  -- base + c, c signed
  unfoldable pub offset : ℕ → ℤ → Result ℕ
  offset base (pos c) = ok (base + c)
  offset base (negsuc n) = defined (before base n)

  -- get, at a column that may be negative: then a dense tensor is read in front of the row, and no
  -- entry of a sparse one is found
  unfoldable pub get_col : Tensor → ℕ → ℤ → Result F64
  unfolding get offset raw_bytes read_elem
  get_col t r (pos c) = get t r c
  get_col t r (negsuc n) = elim t.kind [
    | scalar ↦ read_elem t.dtype (t.scalar_buf ∷ []) 0
    | sparse ↦ defined t.sparse_store >>= λ sp. ok sp.sp_default
    | dense ↦ offset (r * t.n_cols) (negsuc n) >>= read_elem t.dtype (raw_bytes t)
  ]

  -- flat_get
  unfoldable pub flat_get : Tensor → ℕ → Result F64
  unfolding get
  flat_get t i = let nc = if ltb 0 t.n_cols then t.n_cols else 1 in get t (i / nc) (i % nc)

  -- A parameter as doubles: resolve_t and view_w<double>; `none` is the null pointer.
  unfoldable pub parameter :
      ValueStore → List String → AttributeMap → String → Result (Option (List Cell))
  unfolding resolve_t view_w
  parameter vs ins attrs aname = resolve_t vs ins (length ins) attrs aname >>= λ t. elim t [
    | none ↦ ok none
    | some x ↦ view_w true x >>= λ cells. ok (some cells)
  ]

  -- p[i], p a parameter
  unfoldable pub entry_of : List Cell → ℕ → Result F64
  unfolding read_f64
  entry_of cells i = defined (get_elem? cells i) >>= read_f64

  -- for (int f = start; …; ++f) row[f] = step(f, row[f]), of a row that is there
  unfoldable pub update_row : (ℕ → Cell → Result Cell) → ℕ → List Cell → Result (List Cell)
  update_row step f [] = ok []
  update_row step f (c ∷ row) = do c' ← step f c; rest ← update_row step (suc f) row; ok (c' ∷ rest)

  -- for (int r = 0; r < n; ++r) the row of nf elements at r * nf is rewritten
  unfoldable pub update_rows :
      (List Cell → Result (List Cell)) → ℕ → ℕ → List Cell → Result (List Cell)
  unfolding first_cells
  update_rows step zero nf cells = ok cells
  update_rows step (suc n) nf cells = do
    row ← first_cells nf cells
    row' ← step row
    rest ← update_rows step n nf (drop nf cells)
    ok (row' ++ rest)

  -- The tensor, with its rows rewritten in place.
  unfoldable pub rewrite_rows : (List Cell → Result (List Cell)) → ℕ → Tensor → Result Tensor
  unfolding update_rows owned_elements with_elements
  rewrite_rows step n_rows t =
      update_rows step n_rows t.n_cols (owned_elements t) >>= λ cells. ok (with_elements t cells)

  -- A result of floats with one column.
  unfoldable pub float_column : ℕ → (ℕ → Result F32) → Result Tensor
  float_column n_rows f =
      tabulate f 0 n_rows >>= λ xs. ok (dense_of false n_rows 1 (map float_cell xs))
