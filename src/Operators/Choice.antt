-- ===== src/Operators/Choice.antt =====
-- src/operator_registry.cpp, the domains omle.core and omle.functions: the evaluation of an expression,
-- the choice between inputs, and the change between dense and sparse.
use omle_runtime.Prelude.{
  ℕ, ◌-◌, min, Bool, Option, none, some, List, [], ◌∷◌, String, map, length, get_elem?, ltb,
  if◌then◌else◌, lookup,
}
use omle_runtime.Prelude.Int.{ℤ, pos, negsuc}
use omle_runtime.Floats.{Floats}
use omle_runtime.Status.{Result, ok, defined, fail, invalid_argument, tabulate, ◌>>=◌}
use omle_runtime.Tensor.{Tensor, get}
use omle_runtime.Tensor.Build.{make_f32, set_doubles, set_floats, from_doubles}
use omle_runtime.Tensor.Convert.{to_float32}
use omle_runtime.Tensor.Compress.{to_sparse}
use omle_runtime.ValueStore.{ValueStore, child_scope, get_value, put}
use omle_runtime.Ast.{AttrVal, attr_expr_val, Expr}
use omle_runtime.Eval.{UserFunctionMap, eval_expr}
use omle_runtime.Functions.{Column}
use omle_runtime.Operators.{Operator, any_f64, out_buf, out_rows, out_cell}
use omle_runtime.Operators.Gathered.{with_names}

module _ ⦃fl : Floats⦄ where
  open fl use {f32, f64, narrow}

  expr_of : Option AttrVal → Option Expr
  expr_of (some (attr_expr_val e)) = some e
  expr_of _ = none

  -- `if (!out.empty()) vs.put(out[0], t)`
  put_first : List String → Tensor → ValueStore → ValueStore
  unfolding put
  put_first [] t vs = vs
  put_first (o ∷ outs) t vs = put o t vs

  -- The tensor of a column of values, of doubles where an input is.
  value_tensor : Bool → ℕ → Column → Tensor
  unfolding make_f32 set_doubles set_floats
  value_tensor wide n_rows values =
      let t = make_f32 n_rows 1 (f32.literal (pos 0) 0) in
      if wide then set_doubles t values else set_floats t (map narrow values)

  module _ (fuel : ℕ) where
    -- The expression evaluated once: the end of op_derive, and the operator Compute.
    unfoldable pub derive_once : Expr → Operator
    unfolding eval_expr any_f64 value_tensor put_first
    derive_once e ins outs attrs fns vs n_rows = do
      values ← eval_expr fuel (some fns) e vs n_rows
      wide ← any_f64 vs ins
      ok (put_first outs (value_tensor wide n_rows values) vs)

    -- The values of the expression where the input i has only its column c.
    unfoldable pub column_values :
        Expr → String → UserFunctionMap → ValueStore → ℕ → ℕ → Result Column
    unfolding get_value get put from_doubles eval_expr
    column_values e i fns vs n_rows c = do
      src ← get_value vs i
      col ← tabulate (λ r. get src r c) 0 n_rows
      eval_expr fuel (some fns) e (put i (from_doubles n_rows 1 col) (child_scope vs)) n_rows

    -- The expression evaluated once for each column of the first input.
    unfoldable pub derive_columns : Expr → String → ℕ → Operator
    unfolding any_f64 column_values out_buf put_first
    derive_columns e i n_cols ins outs attrs fns vs n_rows = do
      wide ← any_f64 vs ins
      cols ← tabulate (column_values e i fns vs n_rows) 0 n_cols
      t ←
          out_buf wide n_rows n_cols
            λ r c. defined (get_elem? cols c) >>= λ col. defined (get_elem? col r)
      ok (put_first outs t vs)

    derive_with : Option Expr → Operator
    unfolding get_value derive_once derive_columns
    derive_with none ins outs attrs fns vs n_rows =
        fail invalid_argument "omle.core/Derive: missing 'expr' attribute"
    derive_with (some e) [] outs attrs fns vs n_rows = derive_once e [] outs attrs fns vs n_rows
    derive_with (some e) (i ∷ ins) outs attrs fns vs n_rows = get_value vs i >>= λ src.
        let columns = derive_columns e i src.n_cols (i ∷ ins) outs attrs fns vs n_rows in
        if ltb 1 src.n_cols then columns else derive_once e (i ∷ ins) outs attrs fns vs n_rows

    -- op_derive
    unfoldable pub op_derive : Operator
    unfolding lookup expr_of derive_with
    op_derive ins outs attrs fns vs n_rows =
        derive_with (expr_of (lookup "expr" attrs)) ins outs attrs fns vs n_rows

    compute_with : Option Expr → Operator
    unfolding derive_once
    compute_with none ins outs attrs fns vs n_rows =
        fail invalid_argument "omle.functions/Compute: missing 'expr' attribute"
    compute_with (some e) ins outs attrs fns vs n_rows = derive_once e ins outs attrs fns vs n_rows

    -- The operator Compute.
    unfoldable pub op_compute : Operator
    unfolding lookup expr_of compute_with
    op_compute ins outs attrs fns vs n_rows =
        compute_with (expr_of (lookup "expr" attrs)) ins outs attrs fns vs n_rows

  -- std::clamp(idx, 0, n - 1)
  unfoldable pub clamp_index : ℤ → ℕ → ℕ
  clamp_index (negsuc k) n = 0
  clamp_index (pos k) n = min k (n - 1)

  -- The candidate that row r selects.
  unfoldable pub candidate : ValueStore → Tensor → List String → ℕ → Result Tensor
  unfolding get get_value clamp_index
  candidate vs sel cands r = do
    x ← get sel r 0
    name ← defined (get_elem? cands (clamp_index (f64.to_int Bool.true 32 x) (length cands)))
    get_value vs name

  -- op_select
  unfoldable pub op_select : Operator
  unfolding get_value put any_f64 candidate get out_rows out_cell
  op_select (s ∷ first ∷ cands) (o ∷ outs) attrs fns vs n_rows = do
    sel ← get_value vs s
    shape ← get_value vs first
    wide ← any_f64 vs (first ∷ cands)
    t ← out_rows wide n_rows shape.n_cols λ r. candidate vs sel (first ∷ cands) r >>= λ cand.
        tabulate (λ c. get cand r c >>= λ v. ok (out_cell wide v)) 0 shape.n_cols
    ok (put o t vs)
  op_select ins outs attrs fns vs n_rows = ok vs

  -- op_sparse_to_dense
  unfoldable pub op_sparse_to_dense : Operator
  unfolding get_value put to_float32
  op_sparse_to_dense ins outs attrs fns vs n_rows =
      with_names ins outs vs λ i o. do src ← get_value vs i; t ← to_float32 src; ok (put o t vs)

  -- op_dense_to_sparse
  unfoldable pub op_dense_to_sparse : Operator
  unfolding get_value put to_sparse
  op_dense_to_sparse ins outs attrs fns vs n_rows =
      with_names ins outs vs
        λ i o. do src ← get_value vs i; t ← to_sparse src (f32.literal (pos 0) 0); ok (put o t vs)
