-- ===== src/Tensor/Convert.antt =====
-- include/omle/tensor.h: to_float32, to_float64 and the conversions built on them.
use omle_runtime.Prelude.{
  ℕ, zero, suc, Bool, List, [], ◌∷◌, get_elem?, map, replicate, if◌then◌else◌,
}
use omle_runtime.Prelude.Int.{pos, eqb_ℤ}
use omle_runtime.Floats.{Floats, F32, F64}
use omle_runtime.Status.{Result, ok, undefined, defined, map_result, ◌>>=◌}
use omle_runtime.Tensor.{
  DataType, float32, float64, Storage, as_float, as_double, as_bool, as_int, as_other, storage_of,
  Kind, dense, sparse, scalar, Cell, float_cell, double_cell, SparseStore, Tensor, read_f32,
  read_f64, read_int, read_elem, raw_bytes, numel, same_dtype,
}
use omle_runtime.Tensor.Csr.{scatter_rows}
use omle_runtime.Tensor.Build.{make_f32, make_dense, with_elements, from_buffer}

module _ ⦃fl : Floats⦄ where
  open fl use {f32, f64, widen, narrow}

  -- The first n elements of a buffer; the source reads past its end where there are fewer.
  unfoldable pub first_cells : ℕ → List Cell → Result (List Cell)
  first_cells zero cells = ok []
  first_cells (suc n) [] = undefined
  first_cells (suc n) (c ∷ cells) = first_cells n cells >>= λ cs. ok (c ∷ cs)

  -- static_cast<float>(p[i]) of the switch of to_float32, one element
  unfoldable pub cast32 : Storage → DataType → Cell → Result F32
  unfolding read_f32 read_f64 read_int
  cast32 as_float dt c = read_f32 c
  cast32 as_double dt c = read_f64 c >>= λ x. ok (narrow x)
  cast32 as_int dt c = read_int dt c >>= λ z. ok (f32.of_int z)
  cast32 as_bool dt c = read_int dt c >>= λ z.
      ok (if eqb_ℤ z (pos 0) then f32.literal (pos 0) 0 else f32.literal (pos 1) 0)
  cast32 as_other dt c = ok (f32.literal (pos 0) 0)

  -- static_cast<double>(p[i]) of the switch of to_float64, one element
  unfoldable pub cast64 : Storage → DataType → Cell → Result F64
  unfolding read_f32 read_f64 read_int
  cast64 as_float dt c = read_f32 c >>= λ x. ok (widen x)
  cast64 as_double dt c = read_f64 c
  cast64 as_int dt c = read_int dt c >>= λ z. ok (f64.of_int z)
  cast64 as_bool dt c = read_int dt c >>= λ z.
      ok (if eqb_ℤ z (pos 0) then f64.literal (pos 0) 0 else f64.literal (pos 1) 0)
  cast64 as_other dt c = ok (f64.literal (pos 0) 0)

  -- The switch of to_float32 over all the elements; its `default` reads nothing.
  unfoldable pub cast_all32 : Storage → Tensor → Result (List F32)
  unfolding cast32 numel first_cells raw_bytes
  cast_all32 as_other t = ok (replicate (numel t) (f32.literal (pos 0) 0))
  cast_all32 s t = first_cells (numel t) (raw_bytes t) >>= map_result (cast32 s t.dtype)

  -- One value of a sparse store as a float: as it is for Float32, through a double otherwise.
  unfoldable pub sparse_value32 : DataType → SparseStore → ℕ → Result Cell
  unfolding read_f32 read_elem same_dtype
  sparse_value32 dt sp k =
      if same_dtype dt float32
      then (defined (get_elem? sp.sp_values k) >>= read_f32 >>= λ x. ok (float_cell x))
      else (read_elem dt sp.sp_values k >>= λ x. ok (float_cell (narrow x)))

  -- The three branches of to_float32 that build a new tensor.
  unfoldable pub convert32 : Kind → Tensor → Result Tensor
  unfolding make_f32 with_elements sparse_value32 scatter_rows numel read_elem storage_of cast_all32
  convert32 sparse t = do
    sp ← defined t.sparse_store
    let filled = replicate (numel t) (float_cell (narrow sp.sp_default))
    cells ← scatter_rows (sparse_value32 t.dtype sp) t.n_cols sp t.n_rows 0 filled
    ok (with_elements (make_f32 t.n_rows t.n_cols (f32.literal (pos 0) 0)) cells)
  convert32 scalar t = do
    x ← read_elem t.dtype (t.scalar_buf ∷ []) 0
    ok (
        with_elements (make_f32 t.n_rows t.n_cols (f32.literal (pos 0) 0))
          (float_cell (narrow x) ∷ []))
  convert32 dense t = do
    xs ← cast_all32 (storage_of t.dtype) t
    ok (with_elements (make_f32 t.n_rows t.n_cols (f32.literal (pos 0) 0)) (map float_cell xs))

  abbrev pub is_dense_kind : Kind → Bool
  is_dense_kind dense = Bool.true
  is_dense_kind _ = Bool.false

  -- to_float32
  unfoldable pub to_float32 : Tensor → Result Tensor
  unfolding convert32 same_dtype
  to_float32 t =
      if same_dtype t.dtype float32
      then (if is_dense_kind t.kind then ok t else convert32 t.kind t)
      else convert32 t.kind t

  -- to_float32_view
  unfoldable pub to_float32_view : Tensor → Result Tensor
  unfolding to_float32 from_buffer raw_bytes
  to_float32_view t =
      if same_dtype t.dtype float32
      then (if is_dense_kind t.kind
          then ok (from_buffer (raw_bytes t) float32 t.n_rows t.n_cols)
          else to_float32 t)
      else to_float32 t

  -- The switch of to_float64 over all the elements; its `default` reads nothing.
  unfoldable pub cast_all64 : Storage → Tensor → Result (List F64)
  unfolding cast64 numel first_cells raw_bytes
  cast_all64 as_other t = ok (replicate (numel t) (f64.literal (pos 0) 0))
  cast_all64 s t = first_cells (numel t) (raw_bytes t) >>= map_result (cast64 s t.dtype)

  -- The three branches of to_float64 that build a new tensor.
  unfoldable pub convert64 : Kind → Tensor → Result Tensor
  unfolding make_dense with_elements scatter_rows numel read_elem storage_of cast_all64
  convert64 sparse t = do
    sp ← defined t.sparse_store
    let filled = replicate (numel t) (double_cell sp.sp_default)
    cells ←
        scatter_rows (λ k. read_elem t.dtype sp.sp_values k >>= λ x. ok (double_cell x)) t.n_cols sp
          t.n_rows 0 filled
    ok (with_elements (make_dense float64 t.n_rows t.n_cols) cells)
  convert64 scalar t = do
    x ← read_elem t.dtype (t.scalar_buf ∷ []) 0
    ok (with_elements (make_dense float64 t.n_rows t.n_cols) (double_cell x ∷ []))
  convert64 dense t = do
    xs ← cast_all64 (storage_of t.dtype) t
    ok (with_elements (make_dense float64 t.n_rows t.n_cols) (map double_cell xs))

  -- to_float64
  unfoldable pub to_float64 : Tensor → Result Tensor
  unfolding convert64 same_dtype
  to_float64 t =
      if same_dtype t.dtype float64
      then (if is_dense_kind t.kind then ok t else convert64 t.kind t)
      else convert64 t.kind t

  -- to_dense
  unfoldable pub to_dense : Tensor → Result Tensor
  unfolding to_float32
  to_dense t = elim t.kind [ sparse ↦ to_float32 t | _ ↦ ok t ]
