-- ===== src/Eval/Fuel.antt =====
-- How much fuel eval_expr needs: as much as calls of user functions nest.
use omle_runtime.Prelude.{
  ℕ, zero, suc, ◌≤◌, ◌≡◌, refl, ap, some, List, String, lookup, Option-cases, inl, inr, fun_ext,
  ◌∙◌, arith,
}
use omle_runtime.Floats.{Floats}
use omle_runtime.Status.{Result, undefined, ◌>>=◌}
use omle_runtime.ValueStore.{ValueStore}
use omle_runtime.Ast.{Expr, literal, column, apply, Exprs, nil, cons}
use omle_runtime.Functions.{Column, fn_table}
use omle_runtime.Functions.Special.{special}
use omle_runtime.Eval.{
  base_name, UserFunction, UserFunctionMap, call_user, eval_apply, eval_with, eval_args, eval_expr,
}

module _ ⦃fl : Floats⦄ (fns : UserFunctionMap) where
  -- Every call of a user function in the expression has a body that is `Below`.
  module _ (Below : Expr → Type 0) where
    abbrev mutual
      Calls : Expr → Type 0
      Calls (literal v) = Unit
      Calls (column name) = Unit
      Calls (apply fn args) =
          ((uf : UserFunction) → lookup fn fns ≡ some uf → Below uf.body) × ArgCalls args

      ArgCalls : Exprs → Type 0
      ArgCalls nil = Unit
      ArgCalls (cons e es) = Calls e × ArgCalls es

  -- Calls of user functions nest at most `depth` deep.
  abbrev pub NestsWithin : ℕ → Expr → Type 0
  NestsWithin zero = Calls (λ e. ⊥)
  NestsWithin (suc depth) = Calls (NestsWithin depth)

  module _ (Below : Expr → Type 0) (run run' : Expr → ValueStore → ℕ → Result Column)
      (agree : (e : Expr) → Below e → run e ≡ run' e) where
    same_call :
        (fn : String)
        → ((uf : UserFunction) → lookup fn fns ≡ some uf → Below uf.body)
        → (args : List Column) (vs : ValueStore) (n : ℕ)
        → call_user run (some fns) fn args vs n ≡ call_user run' (some fns) fn args vs n
    unfolding call_user
    same_call fn h args vs n = elim (Option-cases (lookup fn fns)) [
      | inl unknown ↦ rw unknown
      | inr (uf, e) ↦ rw (e, agree uf.body (h uf e))
    ]

    same_apply :
        (fn : String)
        → ((uf : UserFunction) → lookup fn fns ≡ some uf → Below uf.body)
        → (args : List Column) (vs : ValueStore) (n : ℕ)
        → eval_apply (call_user run (some fns)) fn args vs n
          ≡ eval_apply (call_user run' (some fns)) fn args vs n
    unfolding eval_apply
    same_apply fn h args vs n = elim (Option-cases (special (base_name fn) args n)) [
      | inl ordinary ↦ elim (Option-cases (lookup (base_name fn) fn_table)) [
        | inl unknown ↦ rw (ordinary, unknown) (same_call fn h args vs n)
        | inr (f, e) ↦ rw (ordinary, e)
      ]
      | inr (s, e) ↦ rw e
    ]

    mutual
      unfolding eval_with

      same_with :
          (e : Expr) (c : Calls Below e) (vs : ValueStore) (n : ℕ)
          → eval_with (call_user run (some fns)) e vs n
            ≡ eval_with (call_user run' (some fns)) e vs n
      same_with (literal v) c vs n = refl
      same_with (column name) c vs n = refl
      same_with (apply fn args) c vs n =
          ap (λ r. r >>= λ cols. eval_apply (call_user run (some fns)) fn cols vs n)
            (same_args args c.1 vs n)
          ∙ ap (λ k. eval_args (call_user run' (some fns)) args vs n >>= k)
              (fun_ext λ cols. same_apply fn c.0 cols vs n)

      same_args :
          (es : Exprs) (c : ArgCalls Below es) (vs : ValueStore) (n : ℕ)
          → eval_args (call_user run (some fns)) es vs n
            ≡ eval_args (call_user run' (some fns)) es vs n
      same_args nil c vs n = refl
      same_args (cons e es) c vs n = rw (same_with e c.0 vs n, same_args es c.1 vs n)

  -- If calls of user functions in an expression nest at most `depth` deep, then eval_expr gives
  -- with all fuel from `depth` on what it gives with `depth`.
  pub fuel_enough :
      (depth fuel : ℕ) (e : Expr)
      → NestsWithin depth e
      → depth ≤ fuel
      → eval_expr fuel (some fns) e ≡ eval_expr depth (some fns) e
  unfolding eval_expr
  fuel_enough zero zero e c h = refl
  fuel_enough zero (suc fuel) e c h = fun_ext λ vs. fun_ext λ n.
      same_with (λ e. ⊥) (eval_expr fuel (some fns)) (λ _ _ _. undefined) (λ e b. absurd b) e c vs n
  fuel_enough (suc depth) zero e c h = absurd (omega arith)
  fuel_enough (suc depth) (suc fuel) e c h = fun_ext λ vs. fun_ext λ n.
      same_with (NestsWithin depth) (eval_expr fuel (some fns)) (eval_expr depth (some fns))
        (λ e b. fuel_enough depth fuel e b (omega arith)) e c vs n
