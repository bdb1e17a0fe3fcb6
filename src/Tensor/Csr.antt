-- ===== src/Tensor/Csr.antt =====
-- include/omle/tensor.h: the loops that write the entries of a CSR store into a dense buffer.
use omle_runtime.Prelude.{
  ℕ, zero, suc, ◌+◌, ◌-◌, ◌*◌, List, length, get_elem?, set, ltb, if◌then◌else◌,
}
use omle_runtime.Floats.{Floats}
use omle_runtime.Status.{Result, ok, undefined, defined, ◌>>=◌}
use omle_runtime.Tensor.{Cell, SparseStore}

module _ ⦃fl : Floats⦄ where
  -- dst[i] = c
  unfoldable pub write_at : List Cell → ℕ → Cell → Result (List Cell)
  write_at buf i c = if ltb i (length buf) then ok (set buf i c) else undefined

  module _ (value : ℕ → Result Cell) (cols : ℕ) (sp : SparseStore) where
    -- for (k = start; k < start + n; ++k) dst[r * cols + indices[k]] = value(k)
    unfoldable pub scatter_row : ℕ → ℕ → ℕ → List Cell → Result (List Cell)
    unfolding write_at
    scatter_row zero r k buf = ok buf
    scatter_row (suc n) r k buf = do
      col ← defined (get_elem? sp.sp_indices k)
      v ← value k
      buf' ← write_at buf (r * cols + col) v
      scatter_row n r (suc k) buf'

    -- for (r = start; r < start + n; ++r) the row above, from indptr[r] to indptr[r + 1]
    unfoldable pub scatter_rows : ℕ → ℕ → List Cell → Result (List Cell)
    unfolding scatter_row
    scatter_rows zero r buf = ok buf
    scatter_rows (suc n) r buf = do
      lo ← defined (get_elem? sp.sp_indptr r)
      hi ← defined (get_elem? sp.sp_indptr (r + 1))
      buf' ← scatter_row (hi - lo) r lo buf
      scatter_rows n (suc r) buf'
