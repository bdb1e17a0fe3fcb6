-- ===== src/Ast.antt =====
-- src/ast_types.h: literals, expressions, predicates and the attributes of a node.
use omle_runtime.Prelude.{Bool, not, Option, some, List, String, Map, lookup, if◌then◌else◌}
use omle_runtime.Prelude.Int.{ℤ, pos}
use omle_runtime.Floats.{Floats, F32, F64}

-- SimpleOp
pub data SimpleOp : Type 0 where
  less less_equal greater greater_equal equal not_equal is_missing is_not_missing : SimpleOp

-- SetOp
pub data SetOp : Type 0 where
  in_set not_in_set : SetOp

-- BoolOp
pub data BoolOp : Type 0 where
  conj disj exclusive surrogate : BoolOp

module _ ⦃fl : Floats⦄ where
  open fl use {f32, f64, widen, narrow}

  -- ScalarVal: the kind with the one field that it uses.
  pub data ScalarVal : Type 0 where
    from_bool : Bool → ScalarVal
    from_int : ℤ → ScalarVal
    from_float : F32 → ScalarVal
    from_double : F64 → ScalarVal
    from_string : String → ScalarVal

  -- ScalarVal::as_double
  unfoldable pub as_double : ScalarVal → F64
  as_double (from_bool b) = if b then f64.literal (pos 1) 0 else f64.literal (pos 0) 0
  as_double (from_int i) = f64.of_int i
  as_double (from_float f) = widen f
  as_double (from_double d) = d
  as_double (from_string s) = f64.nan

  -- ScalarVal::as_float
  unfoldable pub as_float : ScalarVal → F32
  unfolding as_double
  as_float (from_float f) = f
  as_float v = narrow (as_double v)

  -- ScalarVal::as_bool
  unfoldable pub as_bool : ScalarVal → Bool
  unfolding as_double
  as_bool v = not (f64.eq (as_double v) (f64.literal (pos 0) 0))

  -- Expr, with ExprLiteral, ExprColumn and ExprApply; Exprs is std::vector<ExprPtr>.
  mutual
    pub data Expr : Type 0 where
      literal : ScalarVal → Expr
      column : String → Expr
      apply : String → Exprs → Expr

    pub data Exprs : Type 0 where
      nil : Exprs
      cons : Expr → Exprs → Exprs

  -- Pred, with PredTrue, PredFalse, PredSimple, PredSet and PredCompound.
  mutual
    pub data Pred : Type 0 where
      pred_true : Pred
      pred_false : Pred
      pred_simple : String → SimpleOp → ScalarVal → Pred
      pred_set : String → SetOp → List ScalarVal → Pred
      pred_compound : BoolOp → Preds → Pred

    pub data Preds : Type 0 where
      no_preds : Preds
      more_preds : Pred → Preds → Preds

  -- AttrVal: the kind with the field that it uses; a tensor by its name in the constants.
  pub data AttrVal : Type 0 where
    attr_int_val : ℤ → AttrVal
    attr_float_val : F64 → AttrVal
    attr_string_val : String → AttrVal
    attr_bool_val : Bool → AttrVal
    attr_ints_val : List ℤ → AttrVal
    attr_floats_val : List F64 → AttrVal
    attr_strings_val : List String → AttrVal
    attr_tensor_val : String → AttrVal
    attr_expr_val : Expr → AttrVal
    attr_pred_val : Pred → AttrVal

  -- AttributeMap
  abbrev pub AttributeMap : Type 0
  AttributeMap = Map AttrVal

  int_or : ℤ → Option AttrVal → ℤ
  int_or def (some (attr_int_val i)) = i
  int_or def _ = def

  -- attr_int
  unfoldable pub attr_int : AttributeMap → String → ℤ → ℤ
  unfolding lookup int_or
  attr_int attrs key def = int_or def (lookup key attrs)

  float_or : F64 → Option AttrVal → F64
  float_or def (some (attr_float_val f)) = f
  float_or def _ = def

  -- attr_float
  unfoldable pub attr_float : AttributeMap → String → F64 → F64
  unfolding lookup float_or
  attr_float attrs key def = float_or def (lookup key attrs)

  str_or : String → Option AttrVal → String
  str_or def (some (attr_string_val s)) = s
  str_or def _ = def

  -- attr_str
  unfoldable pub attr_str : AttributeMap → String → String → String
  unfolding lookup str_or
  attr_str attrs key def = str_or def (lookup key attrs)

  bool_or : Bool → Option AttrVal → Bool
  bool_or def (some (attr_bool_val b)) = b
  bool_or def _ = def

  -- attr_bool
  unfoldable pub attr_bool : AttributeMap → String → Bool → Bool
  unfolding lookup bool_or
  attr_bool attrs key def = bool_or def (lookup key attrs)

  tensor_name : Option AttrVal → String
  tensor_name (some (attr_tensor_val s)) = s
  tensor_name _ = ""

  -- attr_tensor
  unfoldable pub attr_tensor : AttributeMap → String → String
  unfolding lookup tensor_name
  attr_tensor attrs key = tensor_name (lookup key attrs)
