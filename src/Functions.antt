-- ===== src/Functions.antt =====
-- src/expression_eval.cpp: fn_table, the functions of the expression language that work row by row.
pub mod Special
pub mod Shape
use omle_runtime.Prelude.{
  ℕ, zero, suc, ◌+◌, ◌≡◌, Bool, true, false, not, ◌&&◌, ◌||◌, Option, none, some, List, [], ◌∷◌,
  String, length, get_elem?, if◌then◌else◌, Map, lookup,
}
use omle_runtime.Prelude.Int.{ℤ, pos, negsuc}
use omle_runtime.Floats.{
  Floats, F64, is_nan_safe64, Math1, exp, exp2, log, log2, log10, log1p, sqrt, cbrt, sin, cos, tan,
  asin, acos, atan, floor, ceil, round, trunc, tanh, abs, Math2, pow, fmod, atan2,
}
use omle_runtime.Status.{Result, ok, undefined, defined, tabulate, ◌>>=◌}

module _ ⦃fl : Floats⦄ where
  open fl use {f64}

  -- std::vector<double>: the values of one expression, a row each.
  abbrev pub Column : Type 0
  Column = List F64

  -- args[k][i]
  unfoldable pub cell : List Column → ℕ → ℕ → Result F64
  cell args k i = defined (get_elem? args k) >>= λ col. defined (get_elem? col i)

  -- EvalFn, by the macro that makes it
  pub data EvalFn : Type 0 where
    unary : (F64 → F64) → EvalFn
    binary : (F64 → F64 → F64) → EvalFn

  -- The loops of the macros UNARY and BINARY; neither looks at the number of arguments.
  unfoldable pub run_fn : EvalFn → List Column → ℕ → Result Column
  unfolding cell
  run_fn (unary f) args n = tabulate (λ i. cell args 0 i >>= λ x. ok (f x)) 0 n
  run_fn (binary f) args n =
      tabulate (λ i. cell args 0 i >>= λ x. cell args 1 i >>= λ y. ok (f x y)) 0 n

  abbrev pub nought : F64
  nought = f64.literal (pos 0) 0

  abbrev pub one : F64
  one = f64.literal (pos 1) 0

  -- b ? 1.0f : 0.0f
  abbrev pub truth_of : Bool → F64
  truth_of b = if b then one else nought

  -- x > y
  abbrev pub gt : F64 → F64 → Bool
  gt x y = f64.lt y x

  -- x != 0.0f
  abbrev pub is_true : F64 → Bool
  is_true x = not (f64.eq x nought)

  -- std::min and std::max, which return the first argument unless the second is strictly beyond it
  abbrev pub std_min : F64 → F64 → F64
  std_min x y = if f64.lt y x then y else x

  abbrev pub std_max : F64 → F64 → F64
  std_max x y = if f64.lt x y then y else x

  abbrev divide : F64 → F64 → F64
  divide x y = if is_true y then f64.div x y else f64.nan

  abbrev sign : F64 → F64
  sign x = if gt x nought then one else if f64.lt x nought then f64.literal (negsuc 0) 0 else nought

  abbrev both : F64 → F64 → F64
  both x y = truth_of (is_true x && is_true y)

  abbrev either : F64 → F64 → F64
  either x y = truth_of (is_true x || is_true y)

  abbrev negation : F64 → F64
  negation x = truth_of (f64.eq x nought)

  -- x > 0.0f ? std::log(x) : NaN
  abbrev if_positive : Math1 → F64 → F64
  if_positive m x = if gt x nought then f64.math1 m x else f64.nan

  sigmoid : F64 → F64
  sigmoid x = f64.div one (f64.add one (f64.math1 exp (f64.neg x)))

  -- fn_table
  unfoldable pub fn_table : Map EvalFn
  unfolding sigmoid
  fn_table =
      ("add", binary f64.add)
      ∷ ("subtract", binary f64.sub)
      ∷ ("multiply", binary f64.mul)
      ∷ ("divide", binary divide)
      ∷ ("negate", unary f64.neg)
      ∷ ("abs", unary (f64.math1 abs))
      ∷ ("mod", binary (f64.math2 fmod))
      ∷ ("exp", unary (f64.math1 exp))
      ∷ ("exp2", unary (f64.math1 exp2))
      ∷ ("log", unary (if_positive log))
      ∷ ("log2", unary (if_positive log2))
      ∷ ("log10", unary (if_positive log10))
      ∷ ("log1p", unary (f64.math1 log1p))
      ∷ ("sqrt", unary (λ x. if f64.le nought x then f64.math1 sqrt x else f64.nan))
      ∷ ("cbrt", unary (f64.math1 cbrt))
      ∷ ("pow", binary (f64.math2 pow))
      ∷ ("square", unary (λ x. f64.mul x x))
      ∷ ("sign", unary sign)
      ∷ ("sin", unary (f64.math1 sin))
      ∷ ("cos", unary (f64.math1 cos))
      ∷ ("tan", unary (f64.math1 tan))
      ∷ ("asin", unary (f64.math1 asin))
      ∷ ("acos", unary (f64.math1 acos))
      ∷ ("atan", unary (f64.math1 atan))
      ∷ ("atan2", binary (f64.math2 atan2))
      ∷ ("floor", unary (f64.math1 floor))
      ∷ ("ceil", unary (f64.math1 ceil))
      ∷ ("round", unary (f64.math1 round))
      ∷ ("trunc", unary (f64.math1 trunc))
      ∷ ("min", binary std_min)
      ∷ ("max", binary std_max)
      ∷ ("equal", binary (λ x y. truth_of (f64.eq x y)))
      ∷ ("not_equal", binary (λ x y. truth_of (not (f64.eq x y))))
      ∷ ("less", binary (λ x y. truth_of (f64.lt x y)))
      ∷ ("less_or_equal", binary (λ x y. truth_of (f64.le x y)))
      ∷ ("greater", binary (λ x y. truth_of (gt x y)))
      ∷ ("greater_or_equal", binary (λ x y. truth_of (f64.le y x)))
      ∷ ("logical_and", binary both)
      ∷ ("logical_or", binary either)
      ∷ ("logical_not", unary negation)
      ∷ ("sigmoid", unary sigmoid)
      ∷ ("tanh", unary (f64.math1 tanh))
      ∷ ("relu", unary (λ x. if gt x nought then x else nought))
      ∷ ("softplus", unary (λ x. f64.math1 log1p (f64.math1 exp x)))
      ∷ ("is_missing", unary (λ x. truth_of (is_nan_safe64 x)))
      ∷ ("is_not_missing", unary (λ x. truth_of (not (is_nan_safe64 x))))
      ∷ ("sub", binary f64.sub)
      ∷ ("mul", binary f64.mul)
      ∷ ("div", binary divide)
      ∷ ("neg", unary f64.neg)
      ∷ ("greater_than", binary (λ x y. truth_of (gt x y)))
      ∷ ("less_than", binary (λ x y. truth_of (f64.lt x y)))
      ∷ ("and", binary both)
      ∷ ("or", binary either)
      ∷ ("not", unary negation)
      ∷ []
