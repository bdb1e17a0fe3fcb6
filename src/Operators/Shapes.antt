-- ===== src/Operators/Shapes.antt =====
-- src/operator_registry.cpp and src/width_dispatch.h: the type and the extents of what an operator puts.
use mathlib.Core.Path.{subst}
use mathlib.Core.List.{flatten}
use omle_runtime.Prelude.{
  ℕ, suc, length, same, ◌≡◌, refl, sym, ◌∙◌, arith, Bool, true, false, Bool-cases, inl, inr, List,
  [], ◌∷◌, String, if◌then◌else◌,
}
use omle_runtime.Prelude.Int.{pos}
use omle_runtime.Floats.{Floats}
use omle_runtime.Status.{Result, ok, ok-injective, >>=-eq-ok, tabulate}
use omle_runtime.Tensor.{DataType, float32, float64, Kind, dense, sparse, scalar, Cell, Tensor}
use omle_runtime.Tensor.Build.{is_one_by_one, make_f32, make_dense, make_scalar, with_elements}
use omle_runtime.ValueStore.{ValueStore, get_value, put, get_value-put}
use omle_runtime.ValueStore.Slots.{dense_of}
use omle_runtime.Ast.{AttributeMap}
use omle_runtime.Eval.{UserFunctionMap}
use omle_runtime.Operators.{any_f64, out_rows, out_cells, out_buf}
use omle_runtime.Operators.Reduce.{Reducer, variadic_reduce, reduce_operator}

module _ ⦃fl : Floats⦄ where
  open fl use {f32}

  -- The type and the extents of a tensor.
  pub record HasShape (dt : DataType) (rows cols : ℕ) (t : Tensor) : Type 0 where
    pub dtype_is : t.dtype ≡ dt
    pub rows_are : t.n_rows ≡ rows
    pub cols_are : t.n_cols ≡ cols

  again :
      {dt : DataType} {rows cols : ℕ} {t t' : Tensor}
      → (t.dtype ≡ t'.dtype)
      → (t.n_rows ≡ t'.n_rows)
      → (t.n_cols ≡ t'.n_cols)
      → HasShape dt rows cols t'
      → HasShape dt rows cols t
  again p q r h = record {
    dtype_is = p ∙ h.dtype_is;
    rows_are = q ∙ h.rows_are;
    cols_are = r ∙ h.cols_are;
  }

  with_elements-HasShape :
      (k : Kind) (dt : DataType) (rows cols : ℕ) (t : Tensor) (cells : List Cell)
      → t.kind ≡ k
      → HasShape dt rows cols t
      → HasShape dt rows cols (with_elements t cells)
  unfolding with_elements
  with_elements-HasShape dense dt rows cols t cells e h = rw e (again refl refl refl h)
  with_elements-HasShape sparse dt rows cols t cells e h = rw e (again refl refl refl h)
  with_elements-HasShape scalar dt rows cols t [] e h = rw e (again refl refl refl h)
  with_elements-HasShape scalar dt rows cols t (c ∷ cells) e h = rw e (again refl refl refl h)

  -- The tensor that the elements of a result are written to.
  base_of : Bool → ℕ → ℕ → Tensor
  base_of wide rows cols =
      if wide then make_dense float64 rows cols else make_f32 rows cols (f32.literal (pos 0) 0)

  is_one_by_one-eq : (rows cols : ℕ) → is_one_by_one rows cols ≡ true → (rows ≡ 1) × (cols ≡ 1)
  is_one_by_one-eq rows cols h = (ground (arith, h), ground (arith, h))

  base_of-HasShape :
      (wide : Bool) (rows cols : ℕ)
      → HasShape (if wide then float64 else float32) rows cols (base_of wide rows cols)
  unfolding base_of make_dense make_f32 make_scalar
  base_of-HasShape true rows cols = elim (Bool-cases (is_one_by_one rows cols)) [
    | inl e ↦
        let (p, q) = is_one_by_one-eq rows cols e in
        rw e (record { dtype_is = refl; rows_are = sym p; cols_are = sym q })
    | inr e ↦ rw e (record { dtype_is = refl; rows_are = refl; cols_are = refl })
  ]
  base_of-HasShape false rows cols = elim (Bool-cases (is_one_by_one rows cols)) [
    | inl e ↦
        let (p, q) = is_one_by_one-eq rows cols e in
        rw e (record { dtype_is = refl; rows_are = sym p; cols_are = sym q })
    | inr e ↦ rw e (record { dtype_is = refl; rows_are = refl; cols_are = refl })
  ]

  dense_of-HasShape :
      (wide : Bool) (rows cols : ℕ) (cells : List Cell)
      → HasShape (if wide then float64 else float32) rows cols (dense_of wide rows cols cells)
  unfolding base_of
  dense_of-HasShape wide rows cols cells =
      with_elements-HasShape (base_of wide rows cols).kind _ rows cols (base_of wide rows cols)
        cells refl (base_of-HasShape wide rows cols)

  out_rows-HasShape :
      (wide : Bool) (rows cols : ℕ) (f : ℕ → Result (List Cell)) {t : Tensor}
      → out_rows wide rows cols f ≡ ok t
      → HasShape (if wide then float64 else float32) rows cols t
  unfolding out_rows
  out_rows-HasShape wide rows cols f h =
      let (cells, e, h') = >>=-eq-ok (tabulate f 0 rows) _ h in
      let q : dense_of wide rows cols (flatten cells) ≡ _ = ok-injective h' in
      subst (HasShape (if wide then float64 else float32) rows cols) q
        (dense_of-HasShape wide rows cols (flatten cells))

  -- An operator that reduces its inputs element by element, where it succeeds, puts a tensor with
  -- a row for each row of the batch and the columns of its first input, of doubles where one of
  -- its inputs is of doubles and of floats otherwise; nothing else in the store changes.
  pub reduce_operator-HasShape :
      (reducer : ℕ → Reducer) (i o : String) (ins outs : List String) (attrs : AttributeMap)
      (fns : UserFunctionMap) (vs after : ValueStore) (n_rows : ℕ)
      → reduce_operator reducer (i ∷ ins) (o ∷ outs) attrs fns vs n_rows ≡ ok after
      → (first result : Tensor) × (wide : Bool) × (get_value vs i ≡ ok first)
        × (any_f64 vs (i ∷ ins) ≡ ok wide)
        × HasShape (if wide then float64 else float32) n_rows first.n_cols result
        × ((name : String)
            → get_value after name ≡ (if same o name then ok result else get_value vs name))
  unfolding reduce_operator variadic_reduce out_buf out_cells
  reduce_operator-HasShape reducer i o ins outs attrs fns vs after n_rows h =
      let (t, e, h') =
        >>=-eq-ok (variadic_reduce vs i ins n_rows (reducer (suc (length ins)))) _ h in
      let (wide, w, e') = >>=-eq-ok (any_f64 vs (i ∷ ins)) _ e in
      let (first, g, e'') = >>=-eq-ok (get_value vs i) _ e' in
      let q : put o t vs ≡ after = ok-injective h' in
      (
        first,
        t,
        wide,
        g,
        w,
        out_rows-HasShape wide n_rows first.n_cols _ e'',
        λ name. rw (← q) (get_value-put o name t vs),
      )
