-- ===== src/Tests/Language.antt =====
-- Examples for expressions, predicates and post-transforms.
use mathlib.Core.Path.{subst}
use omle_runtime.Prelude.{
  ℕ, zero, suc, ◌+◌, ◌*◌, ◌<◌, ◌≤◌, ◌≡◌, refl, Bool, true, false, Option, none, some, List, [], ◌∷◌,
  ◌++◌, String, str_append, arith, length, lookup, insert,
}
use omle_runtime.Prelude.Int.{pos}
use omle_runtime.Floats.{F64}
use omle_runtime.Floats.Toy.{toy, finite}
use omle_runtime.Status.{ok, rows}
use omle_runtime.Tensor.{Tensor, float64, get, read_elem, raw_bytes}
use omle_runtime.Tensor.Build.{from_doubles}
use omle_runtime.ValueStore.{ValueStore, new_store, put, get_value}
use omle_runtime.Ast.{
  Expr, column, apply, nil, cons, from_int, Pred, pred_simple, pred_compound, no_preds, more_preds,
  greater, less, conj,
}
use omle_runtime.Eval.{
  UserFunction, UserFunctionMap, eval_expr, eval_apply, call_user, ns_prefix, base_name,
}
use omle_runtime.Eval.Shape.{length-eval_expr}
use omle_runtime.Eval.Fuel.{NestsWithin}
use omle_runtime.Eval.Names.{eval_apply-qualified}
use omle_runtime.Predicates.{byte, eval_pred}
use omle_runtime.Predicates.Bytes.{holds, Reads, eval_pred-holds}
use omle_runtime.PostTransform.{softmax, apply_post_transform}
use omle_runtime.PostTransform.RowLocal.{joined, apply_post_transform-append}

abbrev ages : Tensor
ages = from_doubles 2 1 (finite (pos 30) ∷ finite (pos 60) ∷ [])

abbrev scope : ValueStore
scope = put "age" ages (new_store [])

abbrev age_of : String → ℕ → F64
age_of name zero = finite (pos 30)
age_of name i = finite (pos 60)

abbrev in_between : Pred
in_between = pred_compound conj (
    more_preds (pred_simple "age" greater (from_int (pos 18)))
      (more_preds (pred_simple "age" less (from_int (pos 40))) no_preds))

ages-row : (i : ℕ) → i < 2 → get ages i 0 ≡ ok (age_of "age" i)
unfolding get read_elem raw_bytes from_doubles
ages-row zero h = refl
ages-row (suc zero) h = refl
ages-row (suc (suc i)) h = absurd (omega arith)

age-Reads : Reads scope 2 age_of "age"
unfolding put get_value insert lookup
age-Reads = record { tensor = ages; found = refl; at_row = ages-row }

eval_pred-holds_example :
    eval_pred in_between scope 2
    ≡ ok (rows (λ i. byte (holds (λ name. age_of name i) in_between)) 0 2)
eval_pred-holds_example = eval_pred-holds scope 2 age_of in_between (age-Reads, (age-Reads, tt))

-- twice(x) = x + x
abbrev twice : UserFunction
twice = record { params = "x" ∷ []; body = apply "add" (cons (column "x") (cons (column "x") nil)) }

abbrev functions : UserFunctionMap
functions = ("twice", twice) ∷ []

abbrev twice_age : Expr
twice_age = apply "twice" (cons (column "age") nil)

body-NestsWithin : NestsWithin functions 0 twice.body
unfolding lookup
body-NestsWithin = ((λ uf h. cc), ((tt, (tt, tt))))

twice_age-NestsWithin : NestsWithin functions 1 twice_age
unfolding lookup
twice_age-NestsWithin = (
  (λ uf h.
      let e : twice ≡ uf = cc in subst (λ u. NestsWithin functions 0 u.body) e body-NestsWithin),
  (tt, tt),
)

twice_age-runs :
    eval_expr 1 (some functions) twice_age scope 2 ≡ ok (finite (pos 60) ∷ finite (pos 120) ∷ [])
unfolding eval_expr omle_runtime.Eval.eval_with omle_runtime.Eval.eval_args put get_value insert
    lookup eval_apply omle_runtime.Functions.Special.special base_name call_user
    omle_runtime.Eval.bind_params omle_runtime.Functions.fn_table omle_runtime.Functions.run_fn get
    read_elem raw_bytes from_doubles omle_runtime.Tensor.Build.make_f32
    omle_runtime.Tensor.Build.set_doubles omle_runtime.Tensor.is_string
    omle_runtime.Tensor.same_dtype omle_runtime.Tensor.dtype_number omle_runtime.Tensor.storage_of
    omle_runtime.Tensor.read_f64 omle_runtime.Prelude.mem_name
twice_age-runs = refl

length-eval_expr_example : length (finite (pos 60) ∷ finite (pos 120) ∷ []) ≡ 2
length-eval_expr_example =
    length-eval_expr 1 (some functions) twice_age scope 2 (finite (pos 60) ∷ finite (pos 120) ∷ [])
      twice_age-runs

eval_apply-qualified_example :
    eval_apply
      (λ fn args vs n. ok [])
      "omle.functions.add"
      ((finite (pos 1) ∷ []) ∷ (finite (pos 2) ∷ []) ∷ [])
      scope
      1
    ≡ eval_apply
        (λ fn args vs n. ok [])
        "add"
        ((finite (pos 1) ∷ []) ∷ (finite (pos 2) ∷ []) ∷ [])
        scope
        1
unfolding base_name omle_runtime.Functions.Special.special omle_runtime.Functions.fn_table lookup
    omle_runtime.Prelude.mem_name
eval_apply-qualified_example =
    eval_apply-qualified (λ fn args vs n. ok []) "add"
      ((finite (pos 1) ∷ []) ∷ (finite (pos 2) ∷ []) ∷ []) scope 1 (omega arith) refl refl

apply_post_transform-append_example :
    apply_post_transform toy.f64
      (finite (pos 1) ∷ finite (pos 2) ∷ finite (pos 3) ∷ finite (pos 4) ∷ [])
      2
      2
      softmax
    ≡ joined
        (apply_post_transform toy.f64 (finite (pos 1) ∷ finite (pos 2) ∷ []) 1 2 softmax)
        (apply_post_transform toy.f64 (finite (pos 3) ∷ finite (pos 4) ∷ []) 1 2 softmax)
apply_post_transform-append_example =
    apply_post_transform-append toy.f64 softmax 1 1 2 (finite (pos 1) ∷ finite (pos 2) ∷ [])
      (finite (pos 3) ∷ finite (pos 4) ∷ []) refl
