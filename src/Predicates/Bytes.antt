-- ===== src/Predicates/Bytes.antt =====
-- The vectors of eval_pred against a meaning of predicates on one row.
use mathlib.Core.Bool.{xor}
use omle_runtime.Prelude.{
  ℕ, zero, suc, ◌<◌, ◌≡◌, refl, ap, Bool, true, false, not, ◌&&◌, ◌||◌, List, map, arith, String,
}
use omle_runtime.Floats.{Floats, F64, is_nan_safe64}
use omle_runtime.Status.{ok, tabulate, ◌>>=◌, rows, tabulate-rows, replicate-eq-rows}
use omle_runtime.Tensor.{Tensor, get}
use omle_runtime.ValueStore.{ValueStore, get_value}
use omle_runtime.Ast.{
  SimpleOp, is_missing, is_not_missing, SetOp, in_set, not_in_set, BoolOp, conj, disj, exclusive,
  surrogate, Pred, pred_true, pred_false, pred_simple, pred_set, pred_compound, Preds, no_preds,
  more_preds, as_double,
}
use omle_runtime.Predicates.{
  byte, join, join_rows, simple_row, set_row, compare_value, contains, eval_pred, eval_children,
  eval_rest,
}

-- What the operators mean: a surrogate stands in where the predicates before it are false.
abbrev pub meaning : BoolOp → Bool → Bool → Bool
meaning conj a b = a && b
meaning disj a b = a || b
meaning exclusive a b = xor a b
meaning surrogate a b = a || b

join-byte : (op : BoolOp) (a b : Bool) → join op (byte a) (byte b) ≡ byte (meaning op a b)
unfolding join xor
join-byte conj true true = refl
join-byte conj true false = refl
join-byte conj false true = refl
join-byte conj false false = refl
join-byte disj true true = refl
join-byte disj true false = refl
join-byte disj false true = refl
join-byte disj false false = refl
join-byte exclusive true true = refl
join-byte exclusive true false = refl
join-byte exclusive false true = refl
join-byte exclusive false false = refl
join-byte surrogate true b = refl
join-byte surrogate false b = refl

join_rows-byte :
    (op : BoolOp) (a b : ℕ → Bool) (start n : ℕ)
    → join_rows op (rows (λ i. byte (a i)) start n) (rows (λ i. byte (b i)) start n)
      ≡ ok (rows (λ i. byte (meaning op (a i) (b i))) start n)
unfolding join_rows
join_rows-byte op a b start zero = refl
join_rows-byte op a b start (suc n) =
    rw (join_rows-byte op a b (suc start) n, join-byte op (a start) (b start))

module _ ⦃fl : Floats⦄ where
  -- A comparison is false on a missing value.
  abbrev pub simple_holds : SimpleOp → F64 → F64 → Bool
  simple_holds is_missing thr v = is_nan_safe64 v
  simple_holds is_not_missing thr v = not (is_nan_safe64 v)
  simple_holds op thr v = not (is_nan_safe64 v) && compare_value op v thr

  simple_row-byte :
      (op : SimpleOp) (thr v : F64) → simple_row op thr v ≡ byte (simple_holds op thr v)
  unfolding simple_row
  simple_row-byte is_missing thr v = refl
  simple_row-byte is_not_missing thr v = refl
  simple_row-byte _ thr v = ground arith

  abbrev pub set_holds : SetOp → List F64 → F64 → Bool
  set_holds in_set vset v = contains vset v
  set_holds not_in_set vset v = not (contains vset v)

  set_row-byte :
      (op : SetOp) (vset : List F64) (v : F64) → set_row op vset v ≡ byte (set_holds op vset v)
  unfolding set_row
  set_row-byte in_set vset v = refl
  set_row-byte not_in_set vset v = refl

  -- A predicate on one row, whose columns have the values `row`. A compound predicate with no
  -- children is false; its children are joined from the left.
  module _ (row : String → F64) where
    abbrev mutual
      pub holds : Pred → Bool
      holds pred_true = true
      holds pred_false = false
      holds (pred_simple name op value) = simple_holds op (as_double value) (row name)
      holds (pred_set name op values) = set_holds op (map as_double values) (row name)
      holds (pred_compound op children) = children_hold op children

      pub children_hold : BoolOp → Preds → Bool
      children_hold op no_preds = false
      children_hold op (more_preds p ps) = rest_hold op ps (holds p)

      pub rest_hold : BoolOp → Preds → Bool → Bool
      rest_hold op no_preds b = b
      rest_hold op (more_preds p ps) b = rest_hold op ps (meaning op b (holds p))

  module _ (vs : ValueStore) (n : ℕ) (values : String → ℕ → F64) where
    -- The column is in scope, and its first n rows have these values.
    pub record Reads (name : String) : Type 0 where
      pub tensor : Tensor
      pub found : get_value vs name ≡ ok tensor
      pub at_row : (i : ℕ) → i < n → get tensor i 0 ≡ ok (values name i)

    abbrev mutual
      pub ReadsAll : Pred → Type 0
      ReadsAll pred_true = Unit
      ReadsAll pred_false = Unit
      ReadsAll (pred_simple name op value) = Reads name
      ReadsAll (pred_set name op vals) = Reads name
      ReadsAll (pred_compound op children) = ReadsEach children

      pub ReadsEach : Preds → Type 0
      ReadsEach no_preds = Unit
      ReadsEach (more_preds p ps) = ReadsAll p × ReadsEach ps

    abbrev truth : Pred → ℕ → ℕ
    truth p i = byte (holds (λ name. values name i) p)

    column_rows :
        (name : String) (g : F64 → ℕ) (h : F64 → Bool)
        → ((v : F64) → g v ≡ byte (h v))
        → Reads name
        → (get_value vs name >>= λ col. tabulate (λ i. get col i 0 >>= λ v. ok (g v)) 0 n)
          ≡ ok (rows (λ i. byte (h (values name i))) 0 n)
    column_rows name g h same_byte r = rw r.found (
        tabulate-rows _ (λ i. byte (h (values name i))) 0 n
          λ i b. rw (r.at_row i (omega arith)) (ap ok (same_byte (values name i))))

    mutual
      unfolding eval_pred

      pred_rows : (p : Pred) → ReadsAll p → eval_pred p vs n ≡ ok (rows (truth p) 0 n)
      pred_rows pred_true r = ap ok (replicate-eq-rows 1 0 n)
      pred_rows pred_false r = ap ok (replicate-eq-rows 0 0 n)
      pred_rows (pred_simple name op value) r =
          column_rows name (simple_row op (as_double value)) (simple_holds op (as_double value))
            (simple_row-byte op (as_double value)) r
      pred_rows (pred_set name op vals) r =
          column_rows name (set_row op (map as_double vals)) (set_holds op (map as_double vals))
            (set_row-byte op (map as_double vals)) r
      pred_rows (pred_compound op children) r = children_rows op children r

      children_rows :
          (op : BoolOp) (ps : Preds)
          → ReadsEach ps
          → eval_children op ps vs n
            ≡ ok (rows (λ i. byte (children_hold (λ name. values name i) op ps)) 0 n)
      children_rows op no_preds r = ap ok (replicate-eq-rows 0 0 n)
      children_rows op (more_preds p ps) r =
          rw (pred_rows p r.0) (rest_rows op ps r.1 (λ i. holds (λ name. values name i) p))

      rest_rows :
          (op : BoolOp) (ps : Preds)
          → ReadsEach ps
          → (b : ℕ → Bool)
          → eval_rest op ps vs n (rows (λ i. byte (b i)) 0 n)
            ≡ ok (rows (λ i. byte (rest_hold (λ name. values name i) op ps (b i))) 0 n)
      rest_rows op no_preds r b = refl
      rest_rows op (more_preds p ps) r b =
          rw (pred_rows p r.0, join_rows-byte op b (λ i. holds (λ name. values name i) p) 0 n)
            (rest_rows op ps r.1 (λ i. meaning op (b i) (holds (λ name. values name i) p)))

    -- Where the columns of a predicate can be read in n rows, eval_pred returns in each row the
    -- byte of what the predicate means on the values of that row.
    pub eval_pred-holds : (p : Pred) → ReadsAll p → eval_pred p vs n ≡ ok (rows (truth p) 0 n)
    eval_pred-holds p r = pred_rows p r
