-- ===== src/Executor/Tables.antt =====
-- A table of rows, and the tensor that holds a range of its rows: what vcat_tensors of
-- src/graph_executor.cpp puts together.
use mathlib.Core.List.{append_assoc, append-nil}
use omle_runtime.Prelude.{
  ℕ, zero, suc, ◌+◌, ◌*◌, ◌≡◌, refl, ap, ◌∙◌, arith, ◌⊎◌, inl, inr, Bool-cases, List, [], ◌∷◌, ◌++◌,
  length, length-append,
}
use omle_runtime.Floats.{Floats}
use omle_runtime.Status.{ok}
use omle_runtime.Tensor.{Tensor, DataType, Cell, elements}
use omle_runtime.Tensor.Build.{is_one_by_one, make_dense, with_elements}
use omle_runtime.Tensor.Convert.{first_cells}

module _ ⦃fl : Floats⦄ where
  module _ (dt : DataType) (cols : ℕ) (g : ℕ → List Cell) where
    -- The elements of n rows from row a on.
    abbrev pub cells : ℕ → ℕ → List Cell
    cells a zero = []
    cells a (suc n) = g a ++ cells (suc a) n

    -- The tensor holds n rows of the table from row a on.
    pub record IsTable (a n : ℕ) (t : Tensor) : Type 0 where
      pub of_dtype : t.dtype ≡ dt
      pub of_rows : t.n_rows ≡ n
      pub of_cols : t.n_cols ≡ cols
      pub holds : first_cells (n * cols) (elements t) ≡ ok (cells a n)

    cells-next : (a n b m : ℕ) → b ≡ a + n → cells a n ++ cells b m ≡ cells a (n + m)
    cells-next a zero b m e =
        let e' : b ≡ a = omega arith in let z : 0 + m ≡ m = omega arith in rw (e', z)
    cells-next a (suc n) b m e =
        let z : suc n + m ≡ suc (n + m) = omega arith in
        rw z (
          append_assoc (g a) (cells (suc a) n) (cells b m)
          ∙ ap (◌++◌ (g a)) (cells-next (suc a) n b m (omega arith)))

    pub cells-join :
        (a n b m : ℕ) → (m ≡ 0) ⊎ (b ≡ a + n) → cells a n ++ cells b m ≡ cells a (n + m)
    cells-join a n b m (inl e) =
        let z : n + 0 ≡ n = omega arith in rw (e, z) (append-nil (cells a n))
    cells-join a n b m (inr e) = cells-next a n b m e

    length-cells : ((r : ℕ) → length (g r) ≡ cols) → (a n : ℕ) → length (cells a n) ≡ n * cols
    length-cells h a zero = omega arith
    length-cells h a (suc n) =
        omega (arith, length-append (g a) (cells (suc a) n), h a, length-cells h (suc a) n)

  first_cells-all : (cs : List Cell) (n : ℕ) → length cs ≡ n → first_cells n cs ≡ ok cs
  unfolding first_cells
  first_cells-all [] zero h = refl
  first_cells-all [] (suc n) h = absurd (omega arith)
  first_cells-all (c ∷ cs) zero h = absurd (omega arith)
  first_cells-all (c ∷ cs) (suc n) h = rw (first_cells-all cs n (omega arith))

  singleton : {A : Type 0} (cs : List A) → length cs ≡ 1 → (c : A) × (cs ≡ c ∷ [])
  singleton [] h = absurd (omega arith)
  singleton (c ∷ []) h = (c, refl)
  singleton (c ∷ d ∷ cs) h = absurd (omega arith)

  make_dense-cases :
      (d : DataType) (r c : ℕ) (cs : List Cell)
      → length cs ≡ r * c
      → let t = with_elements (make_dense d r c) cs in
        (t.dtype ≡ d) × (t.n_rows ≡ r) × (t.n_cols ≡ c) × (elements t ≡ cs)
  unfolding elements with_elements make_dense
  make_dense-cases d r c cs h = elim (Bool-cases (is_one_by_one r c)) [
    | inl e ↦ let (x, e') = singleton cs (ground arith) in ground (arith, e')
    | inr e ↦ rw e (refl, refl, refl, refl)
  ]

  pub make_dense-IsTable :
      (dt : DataType) (cols : ℕ) (g : ℕ → List Cell) (a n : ℕ)
      → ((r : ℕ) → length (g r) ≡ cols)
      → IsTable dt cols g a n (with_elements (make_dense dt n cols) (cells dt cols g a n))
  make_dense-IsTable dt cols g a n h =
      let l = length-cells dt cols g h a n in
      let (d, r, c, e) = make_dense-cases dt n cols (cells dt cols g a n) l in
      record {
        of_dtype = d;
        of_rows = r;
        of_cols = c;
        holds = rw e (first_cells-all (cells dt cols g a n) (n * cols) l);
      }
