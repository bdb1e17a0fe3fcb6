-- ===== src/Predicates.antt =====
-- src/expression_eval.cpp: eval_pred. A byte of its vectors is a number, 1 for true and 0 for false.
pub mod Bytes
use omle_runtime.Prelude.{
  ℕ, zero, suc, ◌+◌, ◌≡◌, Bool, true, false, not, ◌||◌, Option, none, some, List, [], ◌∷◌, String,
  map, length, replicate, bit_and, ◌==◌, if◌then◌else◌,
}
use Prim.Native.Nat.{bit_or, bit_xor}
use omle_runtime.Floats.{Floats, F64, is_nan_safe64}
use omle_runtime.Status.{Result, ok, undefined, tabulate, ◌>>=◌}
use omle_runtime.Tensor.{Tensor, get}
use omle_runtime.ValueStore.{ValueStore, get_value}
use omle_runtime.Ast.{
  SimpleOp, less, less_equal, greater, greater_equal, equal, not_equal, is_missing, is_not_missing,
  SetOp, in_set, not_in_set, BoolOp, conj, disj, exclusive, surrogate, ScalarVal, as_double, Pred,
  pred_true, pred_false, pred_simple, pred_set, pred_compound, Preds, no_preds, more_preds,
}

-- b ? 1 : 0
abbrev pub byte : Bool → ℕ
byte b = if b then 1 else 0

-- One row of the switch over BoolOp.
unfoldable pub join : BoolOp → ℕ → ℕ → ℕ
join conj r k = bit_and r k
join disj r k = bit_or r k
join exclusive r k = bit_xor r k
join surrogate r k = if r == 0 then k else r

-- The loop over the rows; the second vector is read at every row of the first.
unfoldable pub join_rows : BoolOp → List ℕ → List ℕ → Result (List ℕ)
join_rows op [] ks = ok []
join_rows op (r ∷ rs) [] = undefined
join_rows op (r ∷ rs) (k ∷ ks) = join_rows op rs ks >>= λ js. ok (join op r k ∷ js)

module _ ⦃fl : Floats⦄ where
  open fl use {f64}

  -- The switch over SimpleOp, for a value that is not missing.
  unfoldable pub compare_value : SimpleOp → F64 → F64 → Bool
  compare_value less v thr = f64.lt v thr
  compare_value less_equal v thr = f64.le v thr
  compare_value greater v thr = f64.lt thr v
  compare_value greater_equal v thr = f64.le thr v
  compare_value equal v thr = f64.eq v thr
  compare_value not_equal v thr = not (f64.eq v thr)
  compare_value _ v thr = false

  -- One row of a simple predicate.
  unfoldable pub simple_row : SimpleOp → F64 → F64 → ℕ
  simple_row is_missing thr v = byte (is_nan_safe64 v)
  simple_row is_not_missing thr v = byte (not (is_nan_safe64 v))
  simple_row op thr v = byte (if is_nan_safe64 v then false else compare_value op v thr)

  -- vset.count(v) > 0
  unfoldable pub contains : List F64 → F64 → Bool
  contains [] v = false
  contains (x ∷ xs) v = f64.eq x v || contains xs v

  -- One row of a set predicate.
  unfoldable pub set_row : SetOp → List F64 → F64 → ℕ
  set_row in_set vset v = byte (contains vset v)
  set_row not_in_set vset v = byte (not (contains vset v))

  -- eval_pred, and the loop over the children of a compound predicate
  unfoldable mutual
    pub eval_pred : Pred → ValueStore → ℕ → Result (List ℕ)
    eval_pred pred_true vs n = ok (replicate n 1)
    eval_pred pred_false vs n = ok (replicate n 0)
    eval_pred (pred_simple name op value) vs n = get_value vs name >>= λ col.
        tabulate (λ i. get col i 0 >>= λ v. ok (simple_row op (as_double value) v)) 0 n
    eval_pred (pred_set name op values) vs n = get_value vs name >>= λ col.
        tabulate (λ i. get col i 0 >>= λ v. ok (set_row op (map as_double values) v)) 0 n
    eval_pred (pred_compound op children) vs n = eval_children op children vs n

    pub eval_children : BoolOp → Preds → ValueStore → ℕ → Result (List ℕ)
    eval_children op no_preds vs n = ok (replicate n 0)
    eval_children op (more_preds p ps) vs n = eval_pred p vs n >>= λ r. eval_rest op ps vs n r

    pub eval_rest : BoolOp → Preds → ValueStore → ℕ → List ℕ → Result (List ℕ)
    eval_rest op no_preds vs n r = ok r
    eval_rest op (more_preds p ps) vs n r =
        eval_pred p vs n >>= λ rk. join_rows op r rk >>= eval_rest op ps vs n
