-- ===== src/Operators/Transforms.antt =====
-- src/operator_registry.cpp, the domain omle.feature: power and quantile transforms, with the inverse of
-- the normal distribution.
use omle_runtime.Prelude.{
  ℕ, zero, suc, ◌+◌, ◌-◌, ◌*◌, ◌/◌, Bool, true, Option, none, some, List, String, length, ltb,
  if◌then◌else◌, same,
}
use omle_runtime.Prelude.Int.{pos, negsuc}
use omle_runtime.Floats.{Floats, F64, abs, log, log1p, sqrt, pow}
use omle_runtime.Status.{Result, ok, ◌>>=◌}
use omle_runtime.Tensor.{Cell, Tensor, numel}
use omle_runtime.ValueStore.{ValueStore, put}
use omle_runtime.Operators.{Operator, attr_b, attr_s, resolve_t, view_w, read_wide, out_cell}
use omle_runtime.Operators.Gathered.{with_names, source_tensor, parameter, entry_of}
use omle_runtime.Operators.Core.{clamp}
use omle_runtime.Operators.Scalers.{standard_cell, rewrite_source}

module _ ⦃fl : Floats⦄ where
  open fl use {f64}

  -- std::clamp(p, kProbitEps, 1.0 - kProbitEps)
  unfoldable pub clamp_probability : F64 → F64
  unfolding clamp
  clamp_probability p =
      clamp f64 p (f64.literal (pos 1) 7) (f64.sub (f64.literal (pos 1) 0) (f64.literal (pos 1) 7))

  -- The end of probit, for a clamped p that is not below a half.
  unfoldable pub probit_tail : F64 → F64
  probit_tail p =
      let one = f64.literal (pos 1) 0 in
      let t = f64.math1 sqrt (f64.mul (f64.literal (negsuc 1) 0) (f64.math1 log (f64.sub one p))) in
      let t2 = f64.literal (pos 10328) 6 in
      let c = f64.add (f64.literal (pos 2515517) 6) (f64.mul (f64.literal (pos 802853) 6) t) in
      let num = f64.add c (f64.mul (f64.mul t2 t) t) in
      let d1 = f64.add one (f64.mul (f64.literal (pos 1432788) 6) t) in
      let d2 = f64.add d1 (f64.mul (f64.mul (f64.literal (pos 189269) 6) t) t) in
      let d3 = f64.mul (f64.mul (f64.mul (f64.literal (pos 1308) 6) t) t) t in
      f64.sub t (f64.div num (f64.add d2 d3))

  -- probit. The source calls itself on 1 - p for p below a half, which clamps again; where 1 - p is
  -- again below a half, which no number is, the source would not end.
  unfoldable pub probit : F64 → F64
  unfolding clamp_probability probit_tail
  probit p =
      let q = clamp_probability p in
      let mirrored = clamp_probability (f64.sub (f64.literal (pos 1) 0) q) in
      if f64.lt q (f64.literal (pos 5) 1) then f64.neg (probit_tail mirrored) else probit_tail q

  -- |x| < 1e-8
  abbrev pub is_tiny : F64 → Bool
  is_tiny x = f64.lt (f64.math1 abs x) (f64.literal (pos 1) 8)

  -- (pow(x, lam) - 1) / lam
  abbrev pub box : F64 → F64 → F64
  box x lam = f64.div (f64.sub (f64.math2 pow x lam) (f64.literal (pos 1) 0)) lam

  -- power_transformer_impl, one value
  unfoldable pub power_value : String → F64 → F64 → F64
  power_value method lam x =
      let one = f64.literal (pos 1) 0 in
      let least = f64.literal (pos 1) 10 in
      let x' = if f64.lt x least then least else x in
      let lam2 = f64.sub (f64.literal (pos 2) 0) lam in
      let box_cox = if is_tiny lam then f64.math1 log x' else box x' lam in
      let upper = if is_tiny lam then f64.math1 log1p x else box (f64.add x one) lam in
      let lower =
        if is_tiny lam2
        then f64.neg (f64.math1 log1p (f64.neg x))
        else f64.div (f64.neg (f64.sub (f64.math2 pow (f64.sub one x) lam2) one)) lam2 in
      if same method "box_cox"
      then box_cox
      else (if f64.le (f64.literal (pos 0) 0) x then upper else lower)

  lambda_at : Option (List Cell) → ℕ → Result F64
  unfolding entry_of
  lambda_at none f = ok (f64.literal (pos 0) 0)
  lambda_at (some lambdas) f = entry_of lambdas f

  -- power_transformer_impl, one element
  unfoldable pub power_cell : String → Option (List Cell) → Bool → ℕ → Cell → Result Cell
  unfolding read_wide lambda_at power_value out_cell
  power_cell method lambdas wide f c = do
    x ← read_wide wide c
    lam ← lambda_at lambdas f
    ok (out_cell wide (power_value method lam x))

  -- The two passes of op_power_transformer over one element.
  unfoldable pub power_then_scale :
      String
      → Bool
      → Option (List Cell)
      → Option (List Cell)
      → Option (List Cell)
      → Bool
      → ℕ
      → Cell
      → Result Cell
  unfolding power_cell standard_cell
  power_then_scale method true lambdas (some mean) (some scale) wide f c =
      power_cell method lambdas wide f c >>= standard_cell wide (some mean) (some scale) f
  power_then_scale method standardize lambdas mean scale wide f c =
      power_cell method lambdas wide f c

  -- op_power_transformer
  unfoldable pub op_power_transformer : Operator
  unfolding source_tensor attr_s attr_b parameter power_then_scale rewrite_source
  op_power_transformer ins outs attrs fns vs n_rows = with_names ins outs vs λ i o. do
    src ← source_tensor vs ins n_rows
    lambdas ← parameter vs ins attrs "lambdas"
    mean ← parameter vs ins attrs "mean"
    scale ← parameter vs ins attrs "scale"
    rewrite_source
        (power_then_scale (attr_s attrs "method" "yeo_johnson")
          (attr_b attrs "standardize" Bool.true) lambdas mean scale)
        src o n_rows vs

  -- while (lo + 1 < hi): the interval of the references that x is in. One round for each
  -- reference is fuel enough.
  unfoldable pub interval_of : ℕ → List Cell → ℕ → F64 → ℕ → ℕ → Result (ℕ × ℕ)
  unfolding entry_of
  interval_of zero refs base x lo hi = ok (lo, hi)
  interval_of (suc fuel) refs base x lo hi =
      let mid = (lo + hi) / 2 in
      let below = interval_of fuel refs base x lo mid in
      let above = interval_of fuel refs base x mid hi in
      let narrowed = entry_of refs (base + mid) >>= λ v. if f64.lt x v then below else above in
      if ltb (lo + 1) hi then narrowed else ok (lo, hi)

  -- The level of x between two references.
  unfoldable pub interpolate : List Cell → List Cell → ℕ → F64 → ℕ → ℕ → Result F64
  unfolding entry_of
  interpolate levels refs base x lo hi = do
    a ← entry_of refs (base + lo)
    b ← entry_of refs (base + hi)
    qa ← entry_of levels lo
    qb ← entry_of levels hi
    let t = f64.div (f64.sub x a) (f64.add (f64.sub b a) (f64.literal (pos 1) 12))
    ok (f64.add qa (f64.mul t (f64.sub qb qa)))

  -- The quantile of one value of a feature whose references stand from `base` on; nq is their number.
  unfoldable pub quantile_of : List Cell → List Cell → ℕ → ℕ → F64 → Result F64
  unfolding entry_of interval_of interpolate
  quantile_of levels refs nq base x = do
    first ← entry_of refs base
    let between =
        interval_of nq refs base x 0 (nq - 1) >>= λ (lo, hi). interpolate levels refs base x lo hi
    let upper = entry_of refs (base + (nq - 1)) >>= λ final.
        if f64.le final x then entry_of levels (nq - 1) else between
    (if f64.le x first then entry_of levels 0 else upper)

  -- The body of the loop of op_quantile_transformer.
  unfoldable pub quantile_cell : Bool → List Cell → List Cell → ℕ → Bool → ℕ → Cell → Result Cell
  unfolding read_wide quantile_of clamp probit out_cell
  quantile_cell to_normal levels refs nq wide f c = do
    x ← read_wide wide c
    q ← quantile_of levels refs nq (f * nq) x
    let p = clamp f64 q (f64.literal (pos 0) 0) (f64.literal (pos 1) 0)
    ok (out_cell wide (if to_normal then probit p else p))

  quantile_source :
      Option Tensor → Option Tensor → Bool → Tensor → String → ℕ → ValueStore → Result ValueStore
  unfolding view_w numel quantile_cell rewrite_source put
  quantile_source (some quant) (some ref) to_normal src o n_rows vs = do
    levels ← view_w Bool.true quant
    refs ← view_w Bool.true ref
    rewrite_source (quantile_cell to_normal levels refs (numel quant)) src o n_rows vs
  quantile_source _ _ to_normal src o n_rows vs = ok (put o src vs)

  -- op_quantile_transformer
  unfoldable pub op_quantile_transformer : Operator
  unfolding source_tensor attr_s resolve_t quantile_source
  op_quantile_transformer ins outs attrs fns vs n_rows = with_names ins outs vs λ i o. do
    src ← source_tensor vs ins n_rows
    quant ← resolve_t vs ins (length ins) attrs "quantiles"
    ref ← resolve_t vs ins (length ins) attrs "references"
    let normal = same (attr_s attrs "output_distribution" "uniform") "normal"
    quantile_source quant ref normal src o n_rows vs
