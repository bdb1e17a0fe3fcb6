-- ===== src/Operators/Splines.antt =====
-- src/operator_registry.cpp, op_spline_transformer: the basis of B-splines by the recurrence of Cox and
-- de Boor.
use mathlib.Core.List.{flatten}
use omle_runtime.Prelude.{
  ℕ, zero, suc, ◌+◌, ◌-◌, ◌*◌, ◌/◌, Bool, true, ◌&&◌, ◌||◌, Option, none, some, List, ◌∷◌, drop,
  map, length, get_elem?, ltb, ◌==◌, if◌then◌else◌,
}
use omle_runtime.Prelude.Int.{ℤ, pos}
use omle_runtime.Floats.{Floats, F64}
use omle_runtime.Status.{Result, ok, undefined, defined, tabulate, ◌>>=◌}
use omle_runtime.Tensor.{Tensor, Cell, numel}
use omle_runtime.ValueStore.{put}
use omle_runtime.Operators.{
  Operator, attr_i, attr_b, resolve_t, wants_f64, view_w, read_wide, out_cell, out_rows,
}
use omle_runtime.Operators.Gathered.{with_names, source_tensor, entry_of}
use omle_runtime.Operators.Lookup.{nat_index}

module _ ⦃fl : Floats⦄ where
  open fl use {f64}

  -- t[i]
  knot : List F64 → ℕ → Result F64
  knot t i = defined (get_elem? t i)

  -- d[i] at the start: whether x is in the interval from t[i] on; the last one is closed.
  unfoldable pub in_interval : List F64 → ℕ → F64 → F64 → ℕ → Result F64
  unfolding knot
  in_interval t n_intervals xlast x i = do
    a ← knot t i
    b ← knot t (i + 1)
    let final = f64.eq x xlast && i == n_intervals - 1
    ok (
        if f64.le a x && (f64.lt x b || final)
        then f64.literal (pos 1) 0
        else f64.literal (pos 0) 0)

  -- width > 1e-10 ? part / width * d : 0
  share : F64 → F64 → F64 → F64
  share part width d =
      if f64.lt (f64.literal (pos 1) 10) width
      then f64.mul (f64.div part width) d
      else f64.literal (pos 0) 0

  -- left + right
  unfoldable pub blend : List F64 → ℕ → F64 → ℕ → F64 → F64 → Result F64
  unfolding knot share
  blend t p x i d d_next = do
    a ← knot t i
    ap_ ← knot t (i + p)
    b ← knot t (i + 1)
    bp ← knot t (i + p + 1)
    ok (
        f64.add (share (f64.sub x a) (f64.sub ap_ a) d)
          (share (f64.sub bp x) (f64.sub bp b) d_next))

  -- The loop of one degree, from i on, `left` entries to go; each reads the next one before it changes.
  unfoldable pub raise_degree : List F64 → ℕ → F64 → ℕ → ℕ → List F64 → Result (List F64)
  unfolding blend
  raise_degree t p x i zero d = ok d
  raise_degree t p x i (suc left) (d ∷ d_next ∷ ds) = do
    v ← blend t p x i d d_next
    rest ← raise_degree t p x (suc i) left (d_next ∷ ds)
    ok (v ∷ rest)
  raise_degree t p x i (suc left) ds = undefined

  -- The degrees from p on, `more` of them.
  unfoldable pub raise_degrees : List F64 → ℕ → F64 → ℕ → ℕ → List F64 → Result (List F64)
  unfolding raise_degree
  raise_degrees t n_intervals x p zero d = ok d
  raise_degrees t n_intervals x p (suc more) d =
      raise_degree t p x 0 (n_intervals - p) d >>= raise_degrees t n_intervals x (suc p) more

  -- bspline_basis, of n_t - degree - 1 values; the degree is not negative
  unfoldable pub bspline_basis : List F64 → ℕ → ℕ → F64 → Result (List F64)
  unfolding in_interval raise_degrees knot
  bspline_basis t zero degree x = undefined
  bspline_basis t (suc n_intervals) degree x = do
    xlast ← knot t n_intervals
    start ← tabulate (in_interval t n_intervals xlast x) 0 n_intervals
    d ← raise_degrees t n_intervals x 1 degree start
    tabulate (λ i. defined (get_elem? d i)) 0 (n_intervals - degree)

  -- The number of knots of a feature.
  knot_count : Tensor → ℕ → Result ℕ
  unfolding numel
  knot_count knots zero = if knots.n_cols == 0 then ok knots.n_rows else undefined
  knot_count knots (suc nf) =
      ok (if knots.n_cols == suc nf then knots.n_rows else numel knots / suc nf)

  -- The columns of one feature in a row, without the first one where there is no bias.
  unfoldable pub feature_basis :
      List Cell → ℕ → ℕ → ℕ → ℕ → Bool → List Cell → ℕ → ℕ → Result (List Cell)
  unfolding entry_of bspline_basis read_wide out_cell
  feature_basis knots nf n_t degree start wide cells r f = do
    x ← defined (get_elem? cells (r * nf + f)) >>= read_wide wide
    kk ← tabulate (λ k. entry_of knots (k * nf + f)) 0 n_t
    basis ← bspline_basis kk n_t degree x
    ok (map (out_cell wide) (drop start basis))

  -- The tensor for the knots; a basis without values, or without any after the bias, has no size.
  unfoldable pub spline_tensor : Tensor → ℕ → Bool → Tensor → ℕ → Result Tensor
  unfolding knot_count view_w wants_f64 out_rows feature_basis
  spline_tensor knots degree include_bias src n_rows = do
    n_t ← knot_count knots src.n_cols
    kp ← view_w true knots
    cells ← view_w (wants_f64 src) src
    let start = if include_bias then 0 else 1
    let n_out = n_t - degree - 1 - start
    let result = out_rows (wants_f64 src) n_rows (src.n_cols * n_out) λ r.
        tabulate (feature_basis kp src.n_cols n_t degree start (wants_f64 src) cells r) 0 src.n_cols
        >>= λ blocks. ok (flatten blocks)
    (if ltb n_t (degree + 1 + start) then undefined else result)

  -- The source without knots; the degree of a basis is not negative.
  splined : Option Tensor → ℤ → Bool → Tensor → ℕ → Result Tensor
  unfolding spline_tensor nat_index
  splined none degree include_bias src n_rows = ok src
  splined (some knots) degree include_bias src n_rows =
      nat_index degree >>= λ d. spline_tensor knots d include_bias src n_rows

  -- op_spline_transformer
  unfoldable pub op_spline_transformer : Operator
  unfolding source_tensor resolve_t attr_i attr_b splined put
  op_spline_transformer ins outs attrs fns vs n_rows = with_names ins outs vs λ i o. do
    src ← source_tensor vs ins n_rows
    knots ← resolve_t vs ins (length ins) attrs "knots"
    t ← splined knots (attr_i attrs "degree" (pos 3)) (attr_b attrs "include_bias" true) src n_rows
    ok (put o t vs)
