-- ===== src/Eval.antt =====
-- src/expression_eval.cpp: eval_apply and eval_expr, and the user functions of the calling thread.
pub mod Shape
pub mod Names
pub mod Fuel
use Prim.Native.String.{len, slice}
use omle_runtime.Prelude.{
  ℕ, zero, suc, ◌+◌, ◌≡◌, Bool, true, false, Option, none, some, List, [], ◌∷◌, String, str_append,
  length, replicate, get_elem?, ◌==◌, ltb, ◌/◌, ◌%◌, ◌&&◌, if◌then◌else◌, Map, lookup, same,
}
use omle_runtime.Prelude.Int.{pos}
use omle_runtime.Floats.{Floats, F64}
use omle_runtime.Status.{
  Result, ok, fail, undefined, defined, tabulate, ◌>>=◌, unknown_operator, invalid_argument,
}
use omle_runtime.Tensor.{Tensor, is_string, get}
use omle_runtime.Tensor.Build.{make_f32, set_doubles}
use omle_runtime.ValueStore.{ValueStore, child_scope, put, get_value}
use omle_runtime.Ast.{Expr, literal, column, apply, Exprs, nil, cons, as_double}
use omle_runtime.Functions.{Column, EvalFn, run_fn, fn_table, nought}
use omle_runtime.Functions.Special.{special}

-- ns_prefix
abbrev pub ns_prefix : String
ns_prefix = "omle.functions."

-- fn_base: the name without the prefix, where something follows the prefix
unfoldable pub base_name : String → String
base_name fn =
    if ltb (len ns_prefix) (len fn) && same (slice fn 0 (len ns_prefix)) ns_prefix
    then slice fn (len ns_prefix) (len fn)
    else fn

digit : ℕ → String
digit n = get_or ("0" ∷ "1" ∷ "2" ∷ "3" ∷ "4" ∷ "5" ∷ "6" ∷ "7" ∷ "8" ∷ "9" ∷ []) n ""
  where
    get_or : List String → ℕ → String → String
    get_or xs i d = elim (get_elem? xs i) [ none ↦ d | some x ↦ x ]

decimal : ℕ → ℕ → String
decimal zero n = digit n
decimal (suc fuel) n =
    let front = decimal fuel (n / 10) in
    if ltb n 10 then digit n else str_append front (digit (n % 10))

-- std::to_string of a size_t, which has 20 digits at most
unfoldable pub to_string : ℕ → String
unfolding decimal digit
to_string n = decimal 20 n

module _ ⦃fl : Floats⦄ where
  open fl use {f32, f64}

  -- UserFunction
  pub record UserFunction : Type 0 where
    pub params : List String
    pub body : Expr

  -- UserFunctionMap
  abbrev pub UserFunctionMap : Type 0
  UserFunctionMap = Map UserFunction

  -- The loop that puts the arguments into the scope of the body.
  unfoldable pub bind_params : List String → List Column → ℕ → ValueStore → Result ValueStore
  bind_params [] args n vs = ok vs
  bind_params (p ∷ ps) [] n vs = undefined
  bind_params (p ∷ ps) (col ∷ args) n vs =
      bind_params ps args n (put p (set_doubles (make_f32 n 1 (f32.literal (pos 0) 0)) col) vs)

  abbrev unknown_function : String → Result Column
  unknown_function fn =
      fail unknown_operator (str_append "unknown expression function '" (str_append fn "'"))

  abbrev arity_message : String → ℕ → ℕ → String
  arity_message fn expected got = str_append "function '" (
      str_append fn (
        str_append "' expects "
          (str_append (to_string expected) (str_append " argument(s), got " (to_string got)))))

  -- The end of eval_apply: a function of the active UserFunctionMap, its body evaluated by `run`.
  -- `none` for the map is the null pointer.
  module _ (run : Expr → ValueStore → ℕ → Result Column) where
    call_found : Option UserFunction → String → List Column → ValueStore → ℕ → Result Column
    call_found none fn args vs n = unknown_function fn
    call_found (some uf) fn args vs n =
        if length args == length uf.params
        then (bind_params uf.params args n (child_scope vs) >>= λ fn_vs. run uf.body fn_vs n)
        else fail invalid_argument (arity_message fn (length uf.params) (length args))

    unfoldable pub call_user :
        Option UserFunctionMap → String → List Column → ValueStore → ℕ → Result Column
    unfolding call_found
    call_user none fn args vs n = unknown_function fn
    call_user (some fns) fn args vs n = call_found (lookup fn fns) fn args vs n

  -- eval_apply, on the evaluated arguments
  module _ (call : String → List Column → ValueStore → ℕ → Result Column) where
    table_or_call : Option EvalFn → String → List Column → ValueStore → ℕ → Result Column
    table_or_call (some f) fn args vs n = run_fn f args n
    table_or_call none fn args vs n = call fn args vs n

    special_or : Option (Result Column) → String → List Column → ValueStore → ℕ → Result Column
    unfolding table_or_call
    special_or (some r) fn args vs n = r
    special_or none fn args vs n = table_or_call (lookup (base_name fn) fn_table) fn args vs n

    unfoldable pub eval_apply : String → List Column → ValueStore → ℕ → Result Column
    unfolding special_or
    eval_apply fn args vs n = special_or (special (base_name fn) args n) fn args vs n

    -- eval_expr, with the calls of user functions by `call`
    unfoldable mutual
      pub eval_with : Expr → ValueStore → ℕ → Result Column
      eval_with (literal v) vs n = ok (replicate n (as_double v))
      eval_with (column name) vs n = get_value vs name >>= λ t.
          if is_string t then ok (replicate n f64.nan) else tabulate (λ i. get t i 0) 0 n
      eval_with (apply fn args) vs n = eval_args args vs n >>= λ cols. eval_apply fn cols vs n

      pub eval_args : Exprs → ValueStore → ℕ → Result (List Column)
      eval_args nil vs n = ok []
      eval_args (cons e es) vs n = eval_with e vs n >>= λ c. eval_args es vs n >>= λ cs. ok (c ∷ cs)

  -- eval_expr. The fuel is how deep calls of user functions may nest: past it the stack of the
  -- source is exhausted.
  unfoldable pub eval_expr : ℕ → Option UserFunctionMap → Expr → ValueStore → ℕ → Result Column
  eval_expr zero fns e vs n = eval_with (call_user (λ _ _ _. undefined) fns) e vs n
  eval_expr (suc fuel) fns e vs n = eval_with (call_user (eval_expr fuel fns) fns) e vs n
