-- ===== src/Operators/Discretizer.antt =====
-- src/operator_registry.cpp, the domain omle.feature: bins, indicators of a value and piecewise linear
-- maps.
use omle_runtime.Prelude.{
  ℕ, zero, suc, ◌+◌, ◌-◌, ◌/◌, Bool, true, false, not, ◌&&◌, Option, none, some, List, [], ◌∷◌,
  String, ltb, if◌then◌else◌, lookup, same,
}
use omle_runtime.Prelude.Int.{ℤ, pos, ◌+ℤ◌, eqb_ℤ}
use omle_runtime.Floats.{Floats, F32, F64}
use omle_runtime.Status.{Result, ok, undefined, ◌>>=◌}
use omle_runtime.Tensor.{Tensor, Cell, float_cell, get, numel, elements}
use omle_runtime.Tensor.Convert.{to_float64}
use omle_runtime.ValueStore.{ValueStore, get_value, put}
use omle_runtime.Ast.{AttrVal, AttributeMap, attr_int_val, attr_float_val}
use omle_runtime.Operators.{
  Operator, attr_ints, attr_s, resolve_t, resolve_t64, wants_f64, out_buf, out_cells,
}
use omle_runtime.Operators.Gathered.{with_names, get_col, entry_of}
use omle_runtime.Operators.Lookup.{is_nan, offset_or}

-- lc_flags: K flags, of which an attribute gives the first ones
unfoldable pub closed_flags : ℕ → List ℤ → List Bool
closed_flags zero zs = []
closed_flags (suc k) [] = true ∷ closed_flags k []
closed_flags (suc k) (z ∷ zs) = not (eqb_ℤ z (pos 0)) ∷ closed_flags k zs

module _ ⦃fl : Floats⦄ where
  open fl use {f32, f64, narrow}

  -- A number of an attribute as a float, NaN where there is none.
  unfoldable pub number32 : Option AttrVal → F32
  number32 (some (attr_float_val x)) = narrow x
  number32 (some (attr_int_val z)) = f32.of_int z
  number32 _ = f32.nan

  -- A number of an attribute as a double, NaN where there is none.
  unfoldable pub number64 : Option AttrVal → F64
  number64 (some (attr_float_val x)) = x
  number64 (some (attr_int_val z)) = f64.of_int z
  number64 _ = f64.nan

  -- The edges and values of the bins.
  pub record Bins : Type 0 where
    pub left : List Cell
    pub right : List Cell
    pub values : List Cell

  -- x is in a bin, closed on the sides of the flags.
  unfoldable pub in_bin : Bool → Bool → F64 → F64 → F64 → Bool
  in_bin lc rc lo hi x =
      (if lc then f64.le lo x else f64.lt lo x) && (if rc then f64.le x hi else f64.lt x hi)

  -- The loop over the bins from k on.
  unfoldable pub bin_value : Bins → List Bool → List Bool → F64 → F32 → ℕ → Result F32
  unfolding in_bin entry_of
  bin_value bins [] rcs x other k = ok other
  bin_value bins (lc ∷ lcs) [] x other k = undefined
  bin_value bins (lc ∷ lcs) (rc ∷ rcs) x other k = do
    lo ← entry_of bins.left k
    hi ← entry_of bins.right k
    let hit = entry_of bins.values k >>= λ v. ok (narrow v)
    let rest = bin_value bins lcs rcs x other (suc k)
    (if in_bin lc rc lo hi x then hit else rest)

  -- The tensor of op_discretize.
  unfoldable pub discretized : Bins → List Bool → List Bool → F32 → F32 → Tensor → ℕ → Result Tensor
  unfolding get bin_value out_cells
  discretized bins lcs rcs other missing src n_rows = out_cells false n_rows src.n_cols λ r c.
      get src r c >>= λ x.
      let binned = bin_value bins lcs rcs x other 0 >>= λ v. ok (float_cell v) in
      if is_nan x then ok (float_cell missing) else binned

  discretize_with :
      Option Tensor
      → Option Tensor
      → Option Tensor
      → AttributeMap
      → Tensor
      → String
      → ℕ
      → ValueStore
      → Result ValueStore
  unfolding to_float64 elements numel closed_flags attr_ints lookup number32 discretized put
  discretize_with (some left_t) (some right_t) (some values_t) attrs src o n_rows vs = do
    bl ← to_float64 left_t
    br ← to_float64 right_t
    bv ← to_float64 values_t
    let bins : Bins = record { left = elements bl; right = elements br; values = elements bv }
    let lcs = closed_flags (numel left_t) (attr_ints attrs "left_closed")
    let rcs = closed_flags (numel left_t) (attr_ints attrs "right_closed")
    t ←
        discretized bins lcs rcs (number32 (lookup "default_value" attrs))
          (number32 (lookup "map_missing_to" attrs)) src n_rows
    ok (put o t vs)
  discretize_with _ _ _ attrs src o n_rows vs = ok vs

  -- op_discretize
  unfoldable pub op_discretize : Operator
  unfolding get_value resolve_t64 discretize_with
  op_discretize ins outs attrs fns vs n_rows = with_names ins outs vs λ i o. do
    src ← get_value vs i
    left_t ← resolve_t64 vs ins 1 attrs "bin_left"
    right_t ← resolve_t64 vs ins 2 attrs "bin_right"
    values_t ← resolve_t64 vs ins 3 attrs "bin_values"
    discretize_with left_t right_t values_t attrs src o n_rows vs

  -- The binary search for the bracket of x; one round for each point is fuel enough.
  unfoldable pub bracket : ℕ → Tensor → F64 → ℕ → ℕ → Result (ℕ × ℕ)
  unfolding get
  bracket zero orig x lo hi = ok (lo, hi)
  bracket (suc fuel) orig x lo hi =
      let mid = (lo + hi) / 2 in
      let upper = bracket fuel orig x mid hi in
      let lower = bracket fuel orig x lo mid in
      let halved = get orig 0 mid >>= λ v. if f64.le v x then upper else lower in
      if ltb 1 (hi - lo) then halved else ok (lo, hi)

  -- The value between two points.
  unfoldable pub between_points : Tensor → Tensor → F64 → ℕ × ℕ → Result F64
  unfolding get
  between_points orig norm x (lo, hi) = do
    x_lo ← get orig 0 lo
    x_hi ← get orig 0 hi
    y_lo ← get norm 0 lo
    y_hi ← get norm 0 hi
    let t = f64.div (f64.sub x x_lo) (f64.sub x_hi x_lo)
    ok (f64.add y_lo (f64.mul t (f64.sub y_hi y_lo)))

  -- The value of a feature between the points `first` and `end` - 1.
  unfoldable pub piecewise : Tensor → Tensor → Bool → F64 → ℕ → ℕ → Result F64
  unfolding get bracket between_points
  piecewise orig norm clamped x first end = do
    x0 ← get orig 0 first
    xn ← get orig 0 (end - 1)
    let low = if clamped then get norm 0 first else ok f64.nan
    let high = if clamped then get norm 0 (end - 1) else ok f64.nan
    let inner = bracket end orig x first (end - 1) >>= between_points orig norm x
    (if f64.le x x0 then low else (if f64.le xn x then high else inner))

  -- The same for a range of int; a point in front of the first one is outside the tensor.
  piecewise_in : Tensor → Tensor → Bool → F64 → ℤ → ℤ → Result F64
  unfolding piecewise
  piecewise_in orig norm clamped x (pos m) (pos (suc k)) = piecewise orig norm clamped x m (suc k)
  piecewise_in orig norm clamped x first end = undefined

  -- The value of a feature with the points from `first` up to `end`.
  unfoldable pub norm_value : Tensor → Tensor → Bool → F64 → ℤ → ℤ → Result F64
  unfolding piecewise_in get_col
  norm_value orig norm clamped x first end =
      if eqb_ℤ end first
      then ok x
      else (if eqb_ℤ end (first +ℤ pos 1)
          then get_col norm 0 first
          else piecewise_in orig norm clamped x first end)

  -- nf_out
  feature_outputs : Option Tensor → ℕ → ℕ
  unfolding numel
  feature_outputs none nf = nf
  feature_outputs (some off) nf = if ltb 1 (numel off) then numel off - 1 else nf

  norm_continuous :
      Option Tensor
      → Option Tensor
      → Option Tensor
      → Bool
      → Tensor
      → String
      → ℕ
      → ValueStore
      → Result ValueStore
  unfolding get numel offset_or feature_outputs norm_value wants_f64 out_buf put
  norm_continuous (some orig) (some norm) off clamped src o n_rows vs = do
    t ← out_buf (wants_f64 src) n_rows (feature_outputs off src.n_cols) λ r f. do
      first ← offset_or off f (pos 0)
      end ← offset_or off (f + 1) (pos (numel orig))
      x ← get src r f
      norm_value orig norm clamped x first end
    ok (put o t vs)
  norm_continuous _ _ off clamped src o n_rows vs = ok vs

  -- op_norm_continuous
  unfoldable pub op_norm_continuous : Operator
  unfolding get_value resolve_t attr_s norm_continuous
  op_norm_continuous ins outs attrs fns vs n_rows = with_names ins outs vs λ i o. do
    src ← get_value vs i
    orig ← resolve_t vs ins 1 attrs "orig_points"
    norm ← resolve_t vs ins 2 attrs "norm_points"
    off ← resolve_t vs ins 3 attrs "point_offsets"
    let clamped = same (attr_s attrs "outlier_treatment" "as_extreme_values") "as_extreme_values"
    norm_continuous orig norm off clamped src o n_rows vs
