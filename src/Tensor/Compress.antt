-- ===== src/Tensor/Compress.antt =====
-- include/omle/tensor.h, Tensor::to_sparse: the large elements of a dense tensor, row by row.
use omle_runtime.Prelude.{
  ℕ, zero, suc, ◌+◌, ◌*◌, some, List, [], ◌∷◌, ◌++◌, get_elem?, length, if◌then◌else◌,
}
use omle_runtime.Prelude.Int.{pos}
use omle_runtime.Floats.{Floats, F32, abs}
use omle_runtime.Status.{Result, ok, defined, ◌>>=◌}
use omle_runtime.Tensor.{sparse, Cell, float_cell, Tensor, elements, read_f32}
use omle_runtime.Tensor.Build.{empty_tensor}

module _ ⦃fl : Floats⦄ where
  open fl use {f32, f64}

  -- The entries of one row, from column c on, with `left` columns to go.
  unfoldable pub row_entries : F32 → List Cell → ℕ → ℕ → ℕ → Result (List (ℕ × Cell))
  unfolding read_f32
  row_entries threshold cells base c zero = ok []
  row_entries threshold cells base c (suc left) = do
    v ← defined (get_elem? cells (base + c)) >>= read_f32
    rest ← row_entries threshold cells base (suc c) left
    ok (if f32.lt threshold (f32.math1 abs v) then (c, float_cell v) ∷ rest else rest)

  -- The stores of the rows from r on, `left` of them: the columns, the values and the ends of the rows,
  -- of which `count` entries stand before.
  unfoldable pub compress_rows : F32 → List Cell → ℕ → ℕ → ℕ → ℕ → Result (List (ℕ × Cell) × List ℕ)
  unfolding row_entries
  compress_rows threshold cells n_cols count r zero = ok ([], [])
  compress_rows threshold cells n_cols count r (suc left) = do
    row ← row_entries threshold cells (r * n_cols) 0 n_cols
    let total = count + length row
    (entries, ends) ← compress_rows threshold cells n_cols total (suc r) left
    ok (row ++ entries, total ∷ ends)

  columns_of : List (ℕ × Cell) → List ℕ
  columns_of [] = []
  columns_of ((c, v) ∷ es) = c ∷ columns_of es

  values_of : List (ℕ × Cell) → List Cell
  values_of [] = []
  values_of ((c, v) ∷ es) = v ∷ values_of es

  -- Tensor::to_sparse
  unfoldable pub to_sparse : Tensor → F32 → Result Tensor
  unfolding compress_rows elements columns_of values_of
  to_sparse src threshold = do
    (entries, ends) ← compress_rows threshold (elements src) src.n_cols 0 0 src.n_rows
    ok (record empty_tensor {
      n_rows = src.n_rows;
      n_cols = src.n_cols;
      kind = sparse;
      sparse_store = some (record {
        sp_values = values_of entries;
        sp_indices = columns_of entries;
        sp_indptr = 0 ∷ ends;
        sp_default = f64.literal (pos 0) 0;
      });
    })
