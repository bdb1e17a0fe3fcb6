-- ===== src/Eval/Shape.antt =====
-- The columns that eval_expr returns have one value for each row.
use omle_runtime.Prelude.{
  ℕ, zero, suc, ◌≡◌, ap, sym, Bool, true, false, Option, none, some, List, String, length,
  replicate, length-replicate, ◌==◌, if◌then◌else◌, lookup, Option-cases, inl, inr, ◌∙◌,
}
use omle_runtime.Floats.{Floats}
use omle_runtime.Status.{
  Payload, Result, ok, error, tabulate, ◌>>=◌, >>=-eq-ok, ok-injective, length-tabulate,
}
use omle_runtime.Tensor.{Tensor, is_string, get}
use omle_runtime.ValueStore.{ValueStore, child_scope, get_value}
use omle_runtime.Ast.{Expr, literal, column, apply, as_double}
use omle_runtime.Functions.{Column, fn_table}
use omle_runtime.Functions.Special.{special}
use omle_runtime.Functions.Shape.{length-run_fn, length-special}
use omle_runtime.Eval.{
  base_name, UserFunction, UserFunctionMap, bind_params, call_user, eval_apply, eval_with,
  eval_args, eval_expr,
}

module _ ⦃fl : Floats⦄ where
  open fl use {f64}

  -- A way to call functions that returns columns of n rows.
  abbrev KeepsRows : (String → List Column → ValueStore → ℕ → Result Column) → Type 0
  KeepsRows call =
      (fn : String) (args : List Column) (vs : ValueStore) (n : ℕ) (r : Column)
      → call fn args vs n ≡ ok r
      → length r ≡ n

  abbrev RunKeepsRows : (Expr → ValueStore → ℕ → Result Column) → Type 0
  RunKeepsRows run =
      (e : Expr) (vs : ValueStore) (n : ℕ) (r : Column) → run e vs n ≡ ok r → length r ≡ n

  length-column :
      (b : Bool) (t : Tensor) (n : ℕ) {r : Column}
      → (if b then ok (replicate n f64.nan) else tabulate (λ i. get t i 0) 0 n) ≡ ok r
      → length r ≡ n
  length-column true t n h = ap length (sym (ok-injective h)) ∙ length-replicate n f64.nan
  length-column false t n h = length-tabulate _ 0 n h

  module _ (call : String → List Column → ValueStore → ℕ → Result Column)
      (keeps : KeepsRows call) where
    length-eval_apply : KeepsRows (eval_apply call)
    unfolding eval_apply
    length-eval_apply fn args vs n r h = elim (Option-cases (special (base_name fn) args n)) [
      | inl ordinary ↦ elim (Option-cases (lookup (base_name fn) fn_table)) [
        | inl unknown ↦ keeps fn args vs n r (rw (ordinary, unknown) at h)
        | inr (f, e) ↦ length-run_fn f args n (rw (ordinary, e) at h)
      ]
      | inr (s, e) ↦ length-special (base_name fn) args n (e ∙ ap some (rw e at h))
    ]

    length-eval_with : RunKeepsRows (eval_with call)
    unfolding eval_with
    length-eval_with (literal v) vs n r h =
        ap length (sym (ok-injective h)) ∙ length-replicate n (as_double v)
    length-eval_with (column name) vs n r h =
        let (t, e, h') =
          >>=-eq-ok (get_value vs name)
            (λ t. if is_string t then ok (replicate n f64.nan) else tabulate (λ i. get t i 0) 0 n)
            h in
        length-column (is_string t) t n h'
    length-eval_with (apply fn args) vs n r h =
        let (cols, e, h') =
          >>=-eq-ok (eval_args call args vs n) (λ cols. eval_apply call fn cols vs n) h in
        length-eval_apply fn cols vs n r h'

  module _ (run : Expr → ValueStore → ℕ → Result Column) (keeps : RunKeepsRows run) where
    length-call_found :
        (b : Bool) (uf : UserFunction) (m : Payload) (args : List Column) (vs : ValueStore) (n : ℕ)
        (r : Column)
        → (if b
            then (bind_params uf.params args n (child_scope vs) >>= λ fn_vs. run uf.body fn_vs n)
            else error m)
          ≡ ok r
        → length r ≡ n
    length-call_found true uf m args vs n r h =
        let (fn_vs, e, h') =
          >>=-eq-ok (bind_params uf.params args n (child_scope vs)) (λ fn_vs. run uf.body fn_vs n)
            h in
        keeps uf.body fn_vs n r h'
    length-call_found false uf m args vs n r h = cc

    length-call_user : (fns : Option UserFunctionMap) → KeepsRows (call_user run fns)
    unfolding call_user
    length-call_user none fn args vs n r h = cc
    length-call_user (some fns) fn args vs n r h = elim (Option-cases (lookup fn fns)) [
      | inl unknown ↦ let failed = rw unknown at h in cc
      | inr (uf, e) ↦
          length-call_found (length args == length uf.params) uf _ args vs n r (rw e at h)
    ]

  -- A column that eval_expr returns for n rows has n elements, whatever the expression, the user
  -- functions, the scope and the fuel.
  pub length-eval_expr :
      (fuel : ℕ) (fns : Option UserFunctionMap) (e : Expr) (vs : ValueStore) (n : ℕ) (r : Column)
      → eval_expr fuel fns e vs n ≡ ok r
      → length r ≡ n
  unfolding eval_expr
  length-eval_expr zero fns = length-eval_with _ (length-call_user _ (λ e vs n r h. cc) fns)
  length-eval_expr (suc fuel) fns =
      length-eval_with _ (length-call_user _ (length-eval_expr fuel fns) fns)
