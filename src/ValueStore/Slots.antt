-- ===== src/ValueStore/Slots.antt =====
-- src/runtime_tensor.h: gather_slots and scatter_outputs.
use omle_runtime.Prelude.{
  ℕ, zero, suc, ◌+◌, ◌*◌, Bool, true, false, ◌&&◌, Option, none, some, List, [], ◌∷◌, ◌++◌, drop,
  replicate, get_elem?, String, if◌then◌else◌,
}
use omle_runtime.Prelude.Int.{pos}
use omle_runtime.Floats.{Floats}
use omle_runtime.Status.{Result, ok, defined, tabulate, ◌>>=◌}
use omle_runtime.Tensor.{DataType, float32, float64, Cell, Tensor, elements, is_dense, same_dtype}
use omle_runtime.Tensor.Build.{make_f32, make_dense, with_elements}
use omle_runtime.Tensor.Convert.{first_cells, to_float32, to_float64}
use omle_runtime.ValueStore.{ValueStore, get_value, put}

module _ ⦃fl : Floats⦄ where
  open fl use {f32}

  -- A dense tensor of the width, with these elements.
  abbrev pub dense_of : Bool → ℕ → ℕ → List Cell → Tensor
  dense_of wide rows cols cells =
      with_elements
        (if wide then make_dense float64 rows cols else make_f32 rows cols (f32.literal (pos 0) 0))
        cells

  -- The sum of n_cols over the slots.
  unfoldable pub total_columns : ValueStore → List String → Result ℕ
  unfolding get_value
  total_columns vs [] = ok 0
  total_columns vs (name ∷ names) = do
    t ← get_value vs name
    rest ← total_columns vs names
    ok (t.n_cols + rest)

  -- The width of the result: that of the first slot where no type is asked for.
  unfoldable pub is_wide : ValueStore → List String → Option DataType → Result Bool
  unfolding get_value same_dtype
  is_wide vs names (some dt) = ok (same_dtype dt float64)
  is_wide vs [] none = ok false
  is_wide vs (name ∷ names) none = get_value vs name >>= λ t. ok (same_dtype t.dtype float64)

  -- src as it is read: itself at the width, and converted otherwise.
  unfoldable pub at_width : Bool → Tensor → Result Tensor
  unfolding is_dense same_dtype to_float32 to_float64
  at_width true src =
      if is_dense src && same_dtype src.dtype float64 then ok src else to_float64 src
  at_width false src =
      if is_dense src && same_dtype src.dtype float32 then ok src else to_float32 src

  -- The memcpy of row r of a slot, behind what the row has, for each row from r on.
  unfoldable pub extend_rows : Tensor → ℕ → ℕ → List (List Cell) → Result (List (List Cell))
  unfolding first_cells elements
  extend_rows t w r [] = ok []
  extend_rows t w r (row ∷ rows) = do
    cells ← first_cells w (drop (r * w) (elements t))
    rest ← extend_rows t w (suc r) rows
    ok ((row ++ cells) ∷ rest)

  -- The loop over the slots.
  unfoldable pub gather_rows :
      Bool → ValueStore → List String → List (List Cell) → Result (List (List Cell))
  unfolding get_value at_width extend_rows
  gather_rows wide vs [] rows = ok rows
  gather_rows wide vs (name ∷ names) rows = do
    src ← get_value vs name
    t ← at_width wide src
    more ← extend_rows t src.n_cols 0 rows
    gather_rows wide vs names more

  unfoldable pub joined_rows : List (List Cell) → List Cell
  joined_rows [] = []
  joined_rows (row ∷ rows) = row ++ joined_rows rows

  -- gather_slots; `none` is the data type Unknown
  unfoldable pub gather_slots : ValueStore → List String → ℕ → Option DataType → Result Tensor
  unfolding total_columns is_wide gather_rows joined_rows
  gather_slots vs names n_rows dtype = do
    cols ← total_columns vs names
    wide ← is_wide vs names dtype
    rows ← gather_rows wide vs names (replicate n_rows [])
    ok (dense_of wide n_rows cols (joined_rows rows))

  -- Column j of the buffer, from row 0 on.
  unfoldable pub column_of : List Cell → ℕ → ℕ → ℕ → Result (List Cell)
  column_of cells n_rows total_cols j =
      tabulate (λ r. defined (get_elem? cells (r * total_cols + j))) 0 n_rows

  -- The loop over the names, from column j on, with so many columns left.
  unfoldable pub scatter_columns :
      Bool → List String → List Cell → ℕ → ℕ → ℕ → ℕ → ValueStore → Result ValueStore
  unfolding column_of put
  scatter_columns wide [] cells n_rows total_cols j left vs = ok vs
  scatter_columns wide (name ∷ names) cells n_rows total_cols j zero vs = ok vs
  scatter_columns wide (name ∷ names) cells n_rows total_cols j (suc left) vs = do
    col ← column_of cells n_rows total_cols j
    scatter_columns wide names cells n_rows total_cols (suc j) left
        (put name (dense_of wide n_rows 1 col) vs)

  -- scatter_outputs, of doubles for `wide`
  unfoldable pub scatter_outputs :
      Bool → List String → List Cell → ℕ → ℕ → ValueStore → Result ValueStore
  unfolding first_cells scatter_columns put
  scatter_outputs wide (name ∷ []) cells n_rows total_cols vs =
      first_cells (n_rows * total_cols) cells >>= λ all.
      ok (put name (dense_of wide n_rows total_cols all) vs)
  scatter_outputs wide names cells n_rows total_cols vs =
      scatter_columns wide names cells n_rows total_cols 0 total_cols vs
