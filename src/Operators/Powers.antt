-- ===== src/Operators/Powers.antt =====
-- src/operator_registry.cpp, the domain omle.feature: products of powers of the features.
use omle_runtime.Prelude.{
  ℕ, zero, suc, ◌+◌, ◌-◌, ◌*◌, min, Bool, Option, none, some, List, [], ◌∷◌, ◌++◌, length,
  get_elem?, replicate, ltb, if◌then◌else◌, foldl,
}
use omle_runtime.Prelude.Int.{ℤ, pos, negsuc, ltb_ℤ, leb_ℤ}
use omle_runtime.Floats.{Floats, F64, pow}
use omle_runtime.Status.{Result, ok, defined, tabulate, ◌>>=◌}
use omle_runtime.Tensor.{Tensor, Cell, get}
use omle_runtime.ValueStore.{put}
use omle_runtime.Operators.{
  Operator, attr_i, attr_b, resolve_t, wants_f64, view_w, read_wide, out_cell, out_cells,
}
use omle_runtime.Operators.Gathered.{with_names, source_tensor}

-- The sum of the exponents.
unfoldable pub degree_of : List ℕ → ℕ
degree_of es = foldl (λ s e. s + e) 0 es

-- `if (total >= min_degree) combos.push_back(cur)`
unfoldable pub complete : ℤ → List ℕ → List (List ℕ)
unfolding degree_of
complete min_degree cur = if leb_ℤ min_degree (pos (degree_of cur)) then cur ∷ [] else []

-- The lists of the exponents from e on, `more` of them, one after another.
unfoldable pub each_exponent : {A : Type 0} → (ℕ → List A) → ℕ → ℕ → List A
each_exponent f e zero = []
each_exponent f e (suc more) = f e ++ each_exponent f (suc e) more

-- gen, with `left` features to go and `remain` of the degree
unfoldable pub gen : ℤ → Bool → ℕ → ℕ → List ℕ → List (List ℕ)
unfolding complete each_exponent
gen min_degree interaction_only zero remain cur = complete min_degree cur
gen min_degree interaction_only (suc left) remain cur =
    each_exponent (λ e. gen min_degree interaction_only left (remain - e) (cur ++ (e ∷ []))) 0
      (suc (if interaction_only then min 1 remain else remain))

-- gen(0, max_degree, tmp)
unfoldable pub generated : ℤ → Bool → ℕ → ℤ → List (List ℕ)
unfolding gen
generated min_degree interaction_only nf (pos d) = gen min_degree interaction_only nf d []
generated min_degree interaction_only zero (negsuc d) = complete min_degree []
generated min_degree interaction_only (suc nf) (negsuc d) = []

-- combos
unfoldable pub combinations : ℤ → Bool → Bool → ℕ → ℤ → List (List ℕ)
unfolding generated
combinations min_degree interaction_only include_bias nf max_degree =
    let all = generated min_degree interaction_only nf max_degree in
    if include_bias then replicate nf 0 ∷ all else all

module _ ⦃fl : Floats⦄ where
  open fl use {f64}

  -- val *= std::pow(x, e), of the values of a row with the exponents of a column
  unfoldable pub power_product : Bool → List Cell → ℕ → F64 → List ℕ → Result F64
  unfolding read_wide
  power_product wide cells at val [] = ok val
  power_product wide cells at val (e ∷ es) = do
    x ← defined (get_elem? cells at) >>= read_wide wide
    power_product wide cells (suc at) (f64.mul val (f64.math2 pow x (f64.of_int (pos e)))) es

  -- The tensor of the fallback.
  unfoldable pub expand_combinations : List (List ℕ) → Tensor → ℕ → Result Tensor
  unfolding power_product view_w wants_f64 out_cells out_cell
  expand_combinations combos src n_rows = view_w (wants_f64 src) src >>= λ cells.
      out_cells (wants_f64 src) n_rows (length combos) λ r c. do
        es ← defined (get_elem? combos c)
        v ← power_product (wants_f64 src) cells (r * src.n_cols) (f64.literal (pos 1) 0) es
        ok (out_cell (wants_f64 src) v)

  -- The same with the stored exponents, of which only the positive ones are used.
  unfoldable pub stored_product : Bool → List Cell → ℕ → F64 → List ℤ → Result F64
  unfolding read_wide
  stored_product wide cells at val [] = ok val
  stored_product wide cells at val (e ∷ es) =
      let skipped = stored_product wide cells (suc at) val es in
      let used = defined (get_elem? cells at) >>= read_wide wide >>= λ x.
      stored_product wide cells (suc at) (f64.mul val (f64.math2 pow x (f64.of_int e))) es in
      if ltb_ℤ (pos 0) e then used else skipped

  -- The tensor of the stored exponents.
  unfoldable pub expand_powers : Tensor → Tensor → ℕ → Result Tensor
  unfolding stored_product get view_w wants_f64 out_cells out_cell
  expand_powers powers src n_rows = do
    pw ←
        tabulate
          (λ c. tabulate (λ f. get powers c f >>= λ x. ok (f64.to_int Bool.true 32 x)) 0 src.n_cols)
          0 powers.n_rows
    cells ← view_w (wants_f64 src) src
    out_cells (wants_f64 src) n_rows powers.n_rows λ r c. do
      es ← defined (get_elem? pw c)
      v ← stored_product (wants_f64 src) cells (r * src.n_cols) (f64.literal (pos 1) 0) es
      ok (out_cell (wants_f64 src) v)

  polynomial : Option Tensor → List (List ℕ) → Tensor → ℕ → Result Tensor
  unfolding expand_powers expand_combinations
  polynomial none combos src n_rows = expand_combinations combos src n_rows
  polynomial (some powers) combos src n_rows =
      if ltb 0 powers.n_rows
      then expand_powers powers src n_rows
      else expand_combinations combos src n_rows

  -- op_polynomial_features
  unfoldable pub op_polynomial_features : Operator
  unfolding source_tensor resolve_t attr_i attr_b combinations polynomial put
  op_polynomial_features ins outs attrs fns vs n_rows = with_names ins outs vs λ i o. do
    src ← source_tensor vs ins n_rows
    powers ← resolve_t vs ins (length ins) attrs "powers"
    let combos =
        combinations (attr_i attrs "min_degree" (pos 1))
          (attr_b attrs "interaction_only" Bool.false) (attr_b attrs "include_bias" Bool.true)
          src.n_cols (attr_i attrs "max_degree" (pos 2))
    t ← polynomial powers combos src n_rows
    ok (put o t vs)
