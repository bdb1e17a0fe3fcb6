-- ===== src/Tests/Sparse.antt =====
-- Example for sparse tensors: a row with entries in the columns 1, 3 and 7.
use omle_runtime.Prelude.{ℕ, zero, suc, ◌<◌, ◌≤◌, ◌≡◌, refl, some, List, [], ◌∷◌, arith, get_elem?}
use omle_runtime.Prelude.Int.{pos}
use omle_runtime.Floats.Toy.{toy, finite}
use omle_runtime.Tensor.{Tensor, SparseStore, sparse, float_cell, get_sparse, read_found}
use omle_runtime.Tensor.Build.{empty_tensor}
use omle_runtime.Tensor.Search.{first_at, get_sparse-first_at}

abbrev columns : List ℕ
columns = 1 ∷ 3 ∷ 7 ∷ []

abbrev column_at : ℕ → ℕ
column_at zero = 1
column_at (suc zero) = 3
column_at (suc (suc i)) = 7

abbrev entries : SparseStore
entries = record {
  sp_values =
      float_cell (finite (pos 10))
      ∷ float_cell (finite (pos 30))
      ∷ float_cell (finite (pos 70))
      ∷ [];
  sp_indices = columns;
  sp_indptr = 0 ∷ 3 ∷ [];
  sp_default = finite (pos 0);
}

abbrev one_row : Tensor
one_row = record empty_tensor { n_rows = 1; n_cols = 8; kind = sparse; sparse_store = some entries }

reads : (i : ℕ) → 0 ≤ i → i < 3 → get_elem? columns i ≡ some (column_at i)
reads zero a b = refl
reads (suc zero) a b = refl
reads (suc (suc zero)) a b = refl
reads (suc (suc (suc i))) a b = absurd (omega arith)

increases : (i j : ℕ) → 0 ≤ i → i < j → j < 3 → column_at i < column_at j
increases zero zero a b d = absurd (omega arith)
increases zero (suc zero) a b d = omega arith
increases zero (suc (suc j)) a b d = omega arith
increases (suc zero) zero a b d = absurd (omega arith)
increases (suc zero) (suc zero) a b d = absurd (omega arith)
increases (suc zero) (suc (suc j)) a b d = omega arith
increases (suc (suc i)) j a b d = absurd (omega arith)

get_sparse-first_at_example :
    get_sparse one_row entries 0 3 ≡ read_found one_row.dtype entries (first_at column_at 3 0 3)
get_sparse-first_at_example =
    get_sparse-first_at columns column_at 3 one_row entries 0 0 3 refl refl refl
      (record { reads = reads; increases = increases })
