-- ===== src/Operators/Indicators.antt =====
-- src/operator_registry.cpp, the domain omle.feature: the indicator of a value, the map of values, and
-- linear projections.
use omle_runtime.Prelude.{ℕ, zero, suc, ◌*◌, Option, none, some, String, ltb, if◌then◌else◌, lookup}
use omle_runtime.Prelude.Int.{pos}
use omle_runtime.Floats.{Floats, F64, is_nan_safe64}
use omle_runtime.Status.{Result, ok, undefined, fold_range, ◌>>=◌}
use omle_runtime.Tensor.{Tensor, get, numel}
use omle_runtime.ValueStore.{ValueStore, get_value, put}
use omle_runtime.Ast.{attr_float}
use omle_runtime.Operators.{Operator, resolve_t64, wants_f64, out_buf}
use omle_runtime.Operators.Gathered.{with_names, flat_get}
use omle_runtime.Operators.Discretizer.{number64}

module _ ⦃fl : Floats⦄ where
  open fl use {f64}

  -- A result of n_rows rows whose elements are set for every element of the source. The source has no
  -- more rows than the batch, since the writes of the others would be outside the result; the rows
  -- that it does not have stay 0.
  unfoldable pub each_element : (F64 → Result F64) → Tensor → ℕ → Result Tensor
  unfolding get out_buf wants_f64
  each_element f src n_rows =
      let result = out_buf (wants_f64 src) n_rows src.n_cols λ r c.
        let changed = get src r c >>= f in
        if ltb r src.n_rows then changed else ok (f64.literal (pos 0) 0) in
      if ltb (n_rows * src.n_cols) (numel src) then undefined else result

  -- The value that op_norm_discrete gives to one element.
  unfoldable pub indicate : F64 → F64 → F64 → F64
  indicate target missing x =
      if is_nan_safe64 x
      then missing
      else (if f64.eq x target then f64.literal (pos 1) 0 else f64.literal (pos 0) 0)

  -- op_norm_discrete
  unfoldable pub op_norm_discrete : Operator
  unfolding get_value put attr_float lookup number64 each_element indicate
  op_norm_discrete ins outs attrs fns vs n_rows = with_names ins outs vs λ i o. do
    src ← get_value vs i
    let target = attr_float attrs "value" (f64.literal (pos 0) 0)
    let missing = number64 (lookup "map_missing_to" attrs)
    t ← each_element (λ x. ok (indicate target missing x)) src n_rows
    ok (put o t vs)

  -- The value of the first key that is x, of `left` keys from k on.
  unfoldable pub mapped_value : Tensor → Tensor → F64 → F64 → ℕ → ℕ → Result F64
  unfolding flat_get
  mapped_value keys values x other k zero = ok other
  mapped_value keys values x other k (suc left) =
      let rest = mapped_value keys values x other (suc k) left in
      flat_get keys k >>= λ key. if f64.eq x key then flat_get values k else rest

  map_element : Tensor → Tensor → F64 → F64 → F64 → Result F64
  unfolding mapped_value numel
  map_element keys values other missing x =
      let mapped = mapped_value keys values x other 0 (numel keys) in
      if is_nan_safe64 x then ok missing else mapped

  map_source :
      Option Tensor
      → Option Tensor
      → F64
      → F64
      → Tensor
      → String
      → ℕ
      → ValueStore
      → Result ValueStore
  unfolding each_element map_element put
  map_source (some keys) (some values) other missing src o n_rows vs =
      each_element (map_element keys values other missing) src n_rows >>= λ t. ok (put o t vs)
  map_source _ _ other missing src o n_rows vs = ok vs

  -- op_map_values
  unfoldable pub op_map_values : Operator
  unfolding get_value resolve_t64 lookup number64 map_source
  op_map_values ins outs attrs fns vs n_rows = with_names ins outs vs λ i o. do
    src ← get_value vs i
    keys ← resolve_t64 vs ins 1 attrs "keys"
    values ← resolve_t64 vs ins 2 attrs "values"
    map_source keys values (number64 (lookup "default_value" attrs))
        (number64 (lookup "map_missing_to" attrs)) src o n_rows vs

  -- flat_get_or
  unfoldable pub flat_get_or : Option Tensor → ℕ → F64 → Result F64
  unfolding flat_get
  flat_get_or none i def = ok def
  flat_get_or (some t) i def = flat_get t i

  -- linear_project
  unfoldable pub linear_project : Tensor → Tensor → Option Tensor → ℕ → Result Tensor
  unfolding get flat_get_or wants_f64 out_buf
  linear_project src comp mean n_rows = out_buf (wants_f64 src) n_rows comp.n_rows λ r c.
      fold_range
        (λ f s. get src r f >>= λ v. flat_get_or mean f (f64.literal (pos 0) 0) >>= λ m.
          get comp c f >>= λ w. ok (f64.add s (f64.mul (f64.sub v m) w)))
        0 comp.n_cols (f64.literal (pos 0) 0)
