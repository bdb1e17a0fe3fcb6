-- ===== src/Operators.antt =====
-- src/operator_registry.cpp and src/width_dispatch.h: what the operators share. An operator reads its
-- inputs by name from the store, and its parameters from the attributes of the node.
pub mod Gathered
pub mod Core
pub mod Columns
pub mod Choice
pub mod Reduce
pub mod Votes
pub mod Samme
pub mod Scalers
pub mod Binarizer
pub mod Buckets
pub mod Lookup
pub mod Encoders
pub mod Target
pub mod Labels
pub mod OneHot
pub mod Powers
pub mod Exponents
pub mod Splines
pub mod Discretizer
pub mod Indicators
pub mod Projections
pub mod Strings
pub mod Murmur
pub mod Tokens
pub mod Text
pub mod Regex
pub mod Transforms
pub mod Registry
pub mod Hashing
pub mod Trimmed
pub mod TokenRows
pub mod Ballots
pub mod Tally
pub mod Clipping
pub mod Interval
pub mod Shapes
pub mod Builtin
use mathlib.Core.List.{flatten}
use omle_runtime.Prelude.{
  ℕ, zero, suc, ◌+◌, ◌-◌, ◌*◌, ◌%◌, ◌^◌, Bool, true, false, not, ◌&&◌, ◌||◌, Option, none, some,
  List, [], ◌∷◌, String, map, length, get_elem?, ltb, leb, ◌==◌, if◌then◌else◌, lookup, same,
  str_append,
}
use omle_runtime.Prelude.Int.{ℤ, pos, negsuc, eqb_ℤ, ◌+ℤ◌}
use omle_runtime.Floats.{Floats, Float, F32, F64}
use omle_runtime.Status.{Result, ok, undefined, defined, tabulate, ◌>>=◌}
use omle_runtime.Tensor.{
  DataType, float32, float64, Kind, dense, sparse, scalar, Cell, float_cell, double_cell, Tensor,
  read_f32, read_f64, read_elem, raw_bytes, elements, is_sparse, is_view, same_dtype, get,
}
use omle_runtime.Tensor.Convert.{to_float32, to_float64}
use omle_runtime.ValueStore.{ValueStore, get_value, has_value}
use omle_runtime.ValueStore.Slots.{dense_of}
use omle_runtime.Ast.{
  AttributeMap, AttrVal, attr_int_val, attr_float_val, attr_string_val, attr_bool_val,
  attr_ints_val, attr_floats_val, attr_tensor,
}
use omle_runtime.Executor.{GraphNode}

-- An unsigned number of 32 bits, as the signed one of the same bits.
unfoldable pub signed32 : ℕ → ℤ
signed32 n = if ltb n (2 ^ 31) then pos n else negsuc (2 ^ 32 - 1 - n)

-- static_cast<int> of a wider integer: its lower 32 bits
unfoldable pub wrap32 : ℤ → ℤ
unfolding signed32
wrap32 (pos n) = signed32 (n % 2 ^ 32)
wrap32 (negsuc n) = signed32 (2 ^ 32 - 1 - n % 2 ^ 32)

module _ ⦃fl : Floats⦄ where
  open fl use {f32, f64, widen, narrow}

  -- OperatorFn, of the names of the inputs and of the outputs, and the attributes.
  abbrev pub Operator : Type 0
  Operator = List String → List String → AttributeMap → GraphNode

  first_int : ℤ → List ℤ → ℤ
  first_int def [] = def
  first_int def (z ∷ zs) = wrap32 z

  int_of : ℤ → Option AttrVal → ℤ
  unfolding first_int
  int_of def (some (attr_int_val z)) = wrap32 z
  int_of def (some (attr_float_val x)) = f64.to_int true 32 x
  int_of def (some (attr_ints_val zs)) = first_int def zs
  int_of def _ = def

  -- attr_i
  unfoldable pub attr_i : AttributeMap → String → ℤ → ℤ
  unfolding lookup int_of
  attr_i attrs key def = int_of def (lookup key attrs)

  text_of : String → Option AttrVal → String
  text_of def (some (attr_string_val s)) = s
  text_of def _ = def

  -- attr_s
  unfoldable pub attr_s : AttributeMap → String → String → String
  unfolding lookup text_of
  attr_s attrs key def = text_of def (lookup key attrs)

  flag_of : Bool → Option AttrVal → Bool
  flag_of def (some (attr_bool_val b)) = b
  flag_of def (some (attr_int_val z)) = not (eqb_ℤ z (pos 0))
  flag_of def _ = def

  -- attr_b
  unfoldable pub attr_b : AttributeMap → String → Bool → Bool
  unfolding lookup flag_of
  attr_b attrs key def = flag_of def (lookup key attrs)

  ints_of : Option AttrVal → List ℤ
  ints_of (some (attr_ints_val zs)) = zs
  ints_of _ = []

  -- The integers of an attribute, none where it is not a list of them.
  unfoldable pub attr_ints : AttributeMap → String → List ℤ
  unfolding lookup ints_of
  attr_ints attrs key = ints_of (lookup key attrs)

  floats_of : Option AttrVal → List F64
  floats_of (some (attr_floats_val xs)) = xs
  floats_of _ = []

  -- The numbers of an attribute, none where it is not a list of them.
  unfoldable pub attr_floats : AttributeMap → String → List F64
  unfolding lookup floats_of
  attr_floats attrs key = floats_of (lookup key attrs)

  abbrev found_value : ValueStore → String → Result (Option Tensor)
  found_value vs name = get_value vs name >>= λ t. ok (some t)

  by_attribute : ValueStore → String → Result (Option Tensor)
  unfolding has_value get_value
  by_attribute vs name =
      if not (same name "") && has_value vs name then found_value vs name else ok none

  -- resolve_t; `none` is the null pointer
  unfoldable pub resolve_t :
      ValueStore → List String → ℕ → AttributeMap → String → Result (Option Tensor)
  unfolding by_attribute has_value get_value attr_tensor
  resolve_t vs ins slot attrs aname =
      let other = by_attribute vs (attr_tensor attrs aname) in
      elim (get_elem? ins slot) [
        | some name ↦ if has_value vs name then found_value vs name else other
        | none ↦ other
      ]

  -- The name of the undegraded twin of a constant: the suffix is the byte 1 and "f64".
  abbrev pub exact_name : String → String
  exact_name name = str_append name "\u{1}f64"

  -- resolve_t_exact
  unfoldable pub resolve_t_exact : ValueStore → AttributeMap → String → Result (Option Tensor)
  unfolding has_value get_value attr_tensor
  resolve_t_exact vs attrs aname =
      let name = attr_tensor attrs aname in
      if same name ""
      then ok none
      else (if has_value vs (exact_name name) then found_value vs (exact_name name) else ok none)

  -- resolve_t64
  unfoldable pub resolve_t64 :
      ValueStore → List String → ℕ → AttributeMap → String → Result (Option Tensor)
  unfolding resolve_t resolve_t_exact
  resolve_t64 vs ins slot attrs aname = resolve_t_exact vs attrs aname >>= λ exact. elim exact [
    | some t ↦ ok (some t)
    | none ↦ resolve_t vs ins slot attrs aname
  ]

  -- any_f64
  unfoldable pub any_f64 : ValueStore → List String → Result Bool
  unfolding has_value get_value same_dtype
  any_f64 vs [] = ok false
  any_f64 vs (name ∷ names) =
      let rest = any_f64 vs names in
      if has_value vs name
      then (get_value vs name >>= λ t. if same_dtype t.dtype float64 then ok true else rest)
      else rest

  -- wants_f64
  unfoldable pub wants_f64 : Tensor → Bool
  unfolding same_dtype
  wants_f64 src = same_dtype src.dtype float64

  -- An element at the width of a result.
  unfoldable pub out_cell : Bool → F64 → Cell
  out_cell wide v = if wide then double_cell v else float_cell (narrow v)

  -- static_cast<double>(p[i]), p of the width
  unfoldable pub read_wide : Bool → Cell → Result F64
  unfolding read_f32 read_f64
  read_wide true c = read_f64 c
  read_wide false c = read_f32 c >>= λ x. ok (widen x)

  -- A tensor of the width, whose rows are set one after another.
  unfoldable pub out_rows : Bool → ℕ → ℕ → (ℕ → Result (List Cell)) → Result Tensor
  out_rows wide rows cols f =
      tabulate f 0 rows >>= λ cells. ok (dense_of wide rows cols (flatten cells))

  -- A tensor of the width, whose every element is set, in the order of the rows.
  unfoldable pub out_cells : Bool → ℕ → ℕ → (ℕ → ℕ → Result Cell) → Result Tensor
  unfolding out_rows
  out_cells wide rows cols f = out_rows wide rows cols (λ r. tabulate (f r) 0 cols)

  -- OutBuf, whose every element is set to f(r, c).
  unfoldable pub out_buf : Bool → ℕ → ℕ → (ℕ → ℕ → Result F64) → Result Tensor
  unfolding out_cells out_cell
  out_buf wide rows cols f = out_cells wide rows cols (λ r c. f r c >>= λ v. ok (out_cell wide v))

  -- The elements that a `T*` of data_w or row_w may write: those that the tensor itself owns.
  unfoldable pub owned_elements : Tensor → List Cell
  owned_elements t = elim t.kind [ scalar ↦ t.scalar_buf ∷ [] | _ ↦ t.dense_data ]

  -- view_w
  unfoldable pub view_w : Bool → Tensor → Result (List Cell)
  unfolding elements same_dtype is_sparse to_float32 to_float64
  view_w wide t =
      let converted = (if wide then to_float64 t else to_float32 t) >>= λ d. ok (elements d) in
      if same_dtype t.dtype (if wide then float64 else float32) && not (is_sparse t)
      then ok (elements t)
      else converted

  -- owned_of
  unfoldable pub owned_of : Bool → Tensor → Result Tensor
  unfolding out_buf same_dtype is_sparse is_view get
  owned_of wide t =
      if same_dtype t.dtype (if wide then float64 else float32)
        && (not (is_sparse t) && not (is_view t))
      then ok t
      else out_buf wide t.n_rows t.n_cols (get t)
