-- ===== src/Tensor/Build.antt =====
-- include/omle/tensor.h: the constructors, the factory functions and the setters of Tensor.
use omle_runtime.Prelude.{
  ℕ, zero, suc, ◌*◌, Bool, true, false, ◌&&◌, none, some, List, [], ◌∷◌, String, map, length,
  get_elem?, replicate, ltb, ◌==◌, if◌then◌else◌,
}
use omle_runtime.Prelude.Int.{pos}
use omle_runtime.Floats.{Floats, F32, F64}
use omle_runtime.Status.{Result, ok, defined, ◌>>=◌}
use omle_runtime.Tensor.{
  DataType, bool, int8, int16, int32, int64, uint8, uint16, uint32, uint64, float32, float64, str,
  dense, sparse, scalar, Cell, blank, float_cell, double_cell, int_cell, SparseStore, Tensor,
  read_f32, elements, same_dtype,
}
use omle_runtime.Tensor.Csr.{scatter_rows}

module _ ⦃fl : Floats⦄ where
  open fl use {f32, f64, widen, narrow}

  -- Tensor(): 0 rows of one column
  abbrev pub empty_tensor : Tensor
  empty_tensor = record {
    dtype = float32;
    n_rows = 0;
    n_cols = 1;
    kind = dense;
    dense_data = [];
    scalar_buf = blank;
    view_ptr = none;
    str_data = [];
    sparse_store = none;
  }

  abbrev pub is_one_by_one : ℕ → ℕ → Bool
  is_one_by_one rows cols = rows == 1 && cols == 1

  -- A tensor of the kind Dense with the given elements.
  abbrev pub dense_with : DataType → ℕ → ℕ → List Cell → Tensor
  dense_with dt rows cols cells = record empty_tensor {
    dtype = dt;
    n_rows = rows;
    n_cols = cols;
    dense_data = cells;
  }

  abbrev pub scalar_with : DataType → Cell → Tensor
  scalar_with dt c = record empty_tensor {
    dtype = dt;
    n_rows = 1;
    n_cols = 1;
    kind = scalar;
    scalar_buf = c;
  }

  -- Tensor(rows, cols, fill)
  unfoldable pub make_f32 : ℕ → ℕ → F32 → Tensor
  make_f32 rows cols fill =
      if is_one_by_one rows cols
      then scalar_with float32 (float_cell fill)
      else dense_with float32 rows cols (
          replicate (rows * cols)
            (if f32.eq fill (f32.literal (pos 0) 0) then blank else float_cell fill))

  -- _write_scalar_bytes
  unfoldable pub write_scalar : DataType → F64 → Cell
  write_scalar bool v = int_cell bool (if f64.eq v (f64.literal (pos 0) 0) then pos 0 else pos 1)
  write_scalar int8 v = int_cell int8 (f64.to_int true 8 v)
  write_scalar int16 v = int_cell int16 (f64.to_int true 16 v)
  write_scalar int32 v = int_cell int32 (f64.to_int true 32 v)
  write_scalar int64 v = int_cell int64 (f64.to_int true 64 v)
  write_scalar uint8 v = int_cell uint8 (f64.to_int false 8 v)
  write_scalar uint16 v = int_cell uint16 (f64.to_int false 16 v)
  write_scalar uint32 v = int_cell uint32 (f64.to_int false 32 v)
  write_scalar uint64 v = int_cell uint64 (f64.to_int false 64 v)
  write_scalar float64 v = double_cell v
  write_scalar _ v = float_cell (narrow v)

  -- Tensor::scalar
  unfoldable pub make_scalar : DataType → F64 → Tensor
  unfolding write_scalar
  make_scalar dt v = scalar_with dt (write_scalar dt v)

  -- Tensor::f32_scalar
  unfoldable pub f32_scalar : F32 → Tensor
  unfolding make_scalar
  f32_scalar v = make_scalar float32 (widen v)

  -- Tensor::dense
  unfoldable pub make_dense : DataType → ℕ → ℕ → Tensor
  unfolding make_scalar
  make_dense dt rows cols =
      if is_one_by_one rows cols
      then make_scalar dt (f64.literal (pos 0) 0)
      else dense_with dt rows cols (replicate (rows * cols) blank)

  -- Tensor::from_floats
  unfoldable pub from_floats : ℕ → ℕ → List F32 → Tensor
  unfolding f32_scalar
  from_floats rows cols [] = dense_with float32 rows cols []
  from_floats rows cols (x ∷ xs) =
      if is_one_by_one rows cols
      then f32_scalar x
      else dense_with float32 rows cols (map float_cell (x ∷ xs))

  -- Tensor::from_doubles
  unfoldable pub from_doubles : ℕ → ℕ → List F64 → Tensor
  unfolding make_scalar
  from_doubles rows cols [] = dense_with float64 rows cols []
  from_doubles rows cols (x ∷ xs) =
      if is_one_by_one rows cols
      then make_scalar float64 x
      else dense_with float64 rows cols (map double_cell (x ∷ xs))

  -- Tensor::from_buffer
  unfoldable pub from_buffer : List Cell → DataType → ℕ → ℕ → Tensor
  from_buffer buf dt rows cols = record empty_tensor {
    dtype = dt;
    n_rows = rows;
    n_cols = cols;
    view_ptr = some buf;
  }

  -- str_data.resize(n)
  unfoldable pub resize : ℕ → List String → List String
  resize zero v = []
  resize (suc n) [] = "" ∷ resize n []
  resize (suc n) (s ∷ v) = s ∷ resize n v

  -- Tensor::strings
  unfoldable pub strings : ℕ → ℕ → List String → Tensor
  unfolding resize
  strings rows cols v = record empty_tensor {
    dtype = str;
    n_rows = rows;
    n_cols = cols;
    str_data = resize (rows * cols) v;
  }

  -- set_doubles; the column is retyped
  unfoldable pub set_doubles : Tensor → List F64 → Tensor
  set_doubles t (x ∷ []) = elim t.kind [
    | scalar ↦ record t { dtype = float64; scalar_buf = double_cell x }
    | _ ↦ record t { dtype = float64; kind = dense; dense_data = double_cell x ∷ [] }
  ]
  set_doubles t v = record t { dtype = float64; kind = dense; dense_data = map double_cell v }

  -- set_floats
  unfoldable pub set_floats : Tensor → List F32 → Tensor
  set_floats t (x ∷ []) = elim t.kind [
    | scalar ↦ record t { dtype = float32; scalar_buf = float_cell x }
    | _ ↦ record t { dtype = float32; kind = dense; dense_data = float_cell x ∷ [] }
  ]
  set_floats t v = record t { dtype = float32; kind = dense; dense_data = map float_cell v }

  -- The writes of a whole buffer through f32_ptr or f64_ptr of a tensor that owns it.
  unfoldable pub with_elements : Tensor → List Cell → Tensor
  with_elements t cells = elim t.kind [
    | scalar ↦ elim cells [ [] ↦ t | c ∷ cs ↦ record t { scalar_buf = c } ]
    | _ ↦ record t { dense_data = cells }
  ]

  -- The elements of a freshly built float tensor, before they are overwritten.
  unfoldable pub set_strings : Tensor → List String → Tensor
  set_strings t v = record t { dtype = str; kind = dense; dense_data = []; str_data = v }

  -- _expand_csr_to_dense
  unfoldable pub expand_csr : ℕ → ℕ → SparseStore → F32 → Result Tensor
  unfolding make_f32 elements with_elements scatter_rows
  expand_csr rows cols sp fill =
      let out = make_f32 rows cols fill in
      scatter_rows (λ k. defined (get_elem? sp.sp_values k) >>= read_f32 >>= λ x. ok (float_cell x))
        cols sp rows 0 (elements out)
      >>= λ cells. ok (with_elements out cells)

  abbrev sparse_with : DataType → ℕ → ℕ → SparseStore → Tensor
  sparse_with dt rows cols sp = record empty_tensor {
    dtype = dt;
    n_rows = rows;
    n_cols = cols;
    kind = sparse;
    sparse_store = some sp;
  }

  -- More than half of the elements are stored: DENSE_THRESHOLD.
  unfoldable pub is_filled : ℕ → ℕ → Bool
  is_filled nnz numel_ =
      f32.lt (f32.literal (pos 5) 1) (f32.div (f32.of_int (pos nnz)) (f32.of_int (pos numel_)))

  -- Tensor::sparse_csr
  unfoldable pub sparse_csr : DataType → ℕ → ℕ → SparseStore → Result Tensor
  unfolding is_filled expand_csr same_dtype
  sparse_csr dt rows cols sp =
      if ltb 0 (rows * cols)
        && (same_dtype dt float32 && is_filled (length sp.sp_indices) (rows * cols))
      then expand_csr rows cols sp (narrow sp.sp_default)
      else ok (sparse_with dt rows cols sp)
