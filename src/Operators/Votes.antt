-- ===== src/Operators/Votes.antt =====
-- src/operator_registry.cpp, the domain omle.core: the votes of an ensemble.
use mathlib.Core.List.{flatten}
use omle_runtime.Prelude.{
  ℕ, suc, ◌+◌, ◌-◌, ◌*◌, Bool, List, [], ◌∷◌, String, map, length, get_elem?, set, replicate, ltb,
  if◌then◌else◌, ◌&&◌, ◌==◌,
}
use omle_runtime.Prelude.Int.{ℤ, pos, negsuc, eqb_ℤ, ltb_ℤ}
use omle_runtime.Floats.{Floats, F64}
use omle_runtime.Status.{Result, ok, undefined, defined, fold_list, fold_range, tabulate, ◌>>=◌}
use omle_runtime.Tensor.{Tensor, get}
use omle_runtime.ValueStore.{ValueStore, get_value, put}
use omle_runtime.Operators.{Operator, any_f64, attr_b, attr_floats, out_buf}
use omle_runtime.Operators.Gathered.{with_names, float_column}
use omle_runtime.Operators.Core.{better}
use omle_runtime.Operators.Reduce.{pad_weights, weight_sum, accumulate}

-- votes[label]++
unfoldable pub add_vote : ℤ → List (ℤ × ℕ) → List (ℤ × ℕ)
add_vote z [] = (z, 1) ∷ []
add_vote z ((k, n) ∷ votes) = if eqb_ℤ k z then (k, suc n) ∷ votes else (k, n) ∷ add_vote z votes

-- The loop over the votes: the first label with more than the best count, which starts at -1.
unfoldable pub most_voted : ℤ → ℤ → List (ℤ × ℕ) → ℤ
most_voted best count [] = best
most_voted best count ((k, n) ∷ votes) =
    most_voted (if ltb_ℤ count (pos n) then k else best)
      (if ltb_ℤ count (pos n) then pos n else count) votes

module _ ⦃fl : Floats⦄ where
  open fl use {f32, f64, narrow}

  -- static_cast<int>(vs.get(name).get(r, 0))
  unfoldable pub label_at : ValueStore → ℕ → String → Result ℤ
  unfolding get_value get
  label_at vs r name = get_value vs name >>= λ t. get t r 0 >>= λ x. ok (f64.to_int Bool.true 32 x)

  -- `order r` is the order in which row r walks the entries of its std::unordered_map.
  module _ (order : ℕ → List (ℤ × ℕ) → List (ℤ × ℕ)) where
    -- The label of row r.
    unfoldable pub row_vote : ValueStore → List String → ℕ → Result ℤ
    unfolding label_at add_vote most_voted
    row_vote vs ins r =
        fold_list (λ name votes. label_at vs r name >>= λ z. ok (add_vote z votes)) ins []
        >>= λ votes. ok (most_voted (pos 0) (negsuc 0) (order r votes))

    -- op_majority_vote
    unfoldable pub op_majority_vote : Operator
    unfolding row_vote float_column put
    op_majority_vote ins outs attrs fns vs n_rows = with_names ins outs vs λ i o. do
      t ← float_column n_rows (λ r. row_vote vs ins r >>= λ z. ok (f32.of_int z))
      ok (put o t vs)

  -- wvotes[label] += w, from 0.0
  unfoldable pub add_weight : ℤ → F64 → List (ℤ × F64) → List (ℤ × F64)
  add_weight z w [] = (z, f64.add (f64.literal (pos 0) 0) w) ∷ []
  add_weight z w ((k, x) ∷ votes) =
      if eqb_ℤ k z then (k, f64.add x w) ∷ votes else (k, x) ∷ add_weight z w votes

  -- The loop over the votes: the first label with more than the best weight, which starts at -1.
  unfoldable pub heaviest : ℤ → F64 → List (ℤ × F64) → ℤ
  heaviest best weight [] = best
  heaviest best weight ((k, x) ∷ votes) =
      heaviest (if f64.lt weight x then k else best) (if f64.lt weight x then x else weight) votes

  module _ (order : ℕ → List (ℤ × F64) → List (ℤ × F64)) where
    unfoldable pub row_weights :
        ValueStore → ℕ → List F64 → List String → List (ℤ × F64) → Result (List (ℤ × F64))
    unfolding label_at add_weight
    row_weights vs r ws [] votes = ok votes
    row_weights vs r [] (name ∷ names) votes = undefined
    row_weights vs r (w ∷ ws) (name ∷ names) votes =
        label_at vs r name >>= λ z. row_weights vs r ws names (add_weight z w votes)

    -- op_weighted_majority_vote
    unfoldable pub op_weighted_majority_vote : Operator
    unfolding row_weights heaviest float_column put attr_floats pad_weights
    op_weighted_majority_vote ins outs attrs fns vs n_rows = with_names ins outs vs λ i o. do
      let ws = pad_weights (length ins) (attr_floats attrs "weights")
      t ← float_column n_rows λ r. row_weights vs r ws ins [] >>= λ votes.
          ok (f32.of_int (heaviest (pos 0) (f64.literal (negsuc 0) 0) (order r votes)))
      ok (put o t vs)

  -- One input in column-stacking mode: acc[r * n_cols + k] = wk * t.get(r, 0)
  unfoldable pub stack_column : ℕ → ℕ → ℕ → F64 → Tensor → List F64 → Result (List F64)
  unfolding get
  stack_column n_rows n_cols k wk t acc =
      fold_range
        (λ r a. get t r 0 >>= λ v. defined (get_elem? a (r * n_cols + k)) >>= λ old.
          ok (set a (r * n_cols + k) (f64.mul wk v)))
        0 n_rows acc

  -- One input in averaging mode: acc[r * n_cols + c] += wk * t.get(r, c)
  unfoldable pub add_weighted : ℕ → ℕ → F64 → Tensor → List F64 → Result (List F64)
  unfolding get
  add_weighted n_rows n_cols wk t acc =
      tabulate
        (λ r.
          tabulate
            (λ c. get t r c >>= λ v.
              defined (get_elem? acc (r * n_cols + c)) >>= λ s. ok (f64.add s (f64.mul wk v)))
            0 n_cols)
        0 n_rows
      >>= λ rows. ok (flatten rows)

  -- The loop over the inputs, from the k-th on.
  unfoldable pub accumulate_votes :
      Bool → ValueStore → ℕ → ℕ → ℕ → List F64 → List String → List F64 → Result (List F64)
  unfolding stack_column add_weighted get_value
  accumulate_votes stacking vs n_rows n_cols k ws [] acc = ok acc
  accumulate_votes stacking vs n_rows n_cols k [] (name ∷ names) acc = undefined
  accumulate_votes stacking vs n_rows n_cols k (w ∷ ws) (name ∷ names) acc = do
    t ← get_value vs name
    acc' ←
        (if stacking
          then stack_column n_rows n_cols k w t acc
          else add_weighted n_rows n_cols w t acc)
    accumulate_votes stacking vs n_rows n_cols (suc k) ws names acc'

  -- One row divided by its sum, where that is positive, or by the sum of the weights.
  unfoldable pub normalized : Bool → F64 → List F64 → List F64
  unfolding accumulate
  normalized normalize_rows wsum row =
      let total = accumulate row in
      let divided = λ (d : F64). map (λ x. f64.div x d) row in
      if normalize_rows
      then (if f64.lt (f64.literal (pos 0) 0) total then divided total else row)
      else divided wsum

  -- The label of row r: of one column by a half, otherwise the first of the largest.
  unfoldable pub vote_label : Tensor → ℕ → Result ℕ
  unfolding get better
  vote_label prob r = do
    first ← get prob r 0
    (if prob.n_cols == 1
        then ok (if f64.le (f64.literal (pos 5) 1) first then 1 else 0)
        else (fold_range (λ c best. get prob r c >>= λ v. ok (better v c best)) 1 (prob.n_cols - 1)
              (first, 0)
            >>= λ (best_v, best). ok best))

  -- The second output, where the node has one.
  put_labels : List String → String → ℕ → ValueStore → Result ValueStore
  unfolding vote_label get_value put float_column
  put_labels [] o n_rows vs = ok vs
  put_labels (p ∷ outs) o n_rows vs = do
    prob ← get_value vs o
    t ← float_column n_rows (λ r. vote_label prob r >>= λ k. ok (f32.of_int (pos k)))
    ok (put p t vs)

  -- op_soft_vote
  unfoldable pub op_soft_vote : Operator
  unfolding get_value put any_f64 attr_b attr_floats pad_weights weight_sum accumulate_votes
      normalized put_labels out_buf
  op_soft_vote [] outs attrs fns vs n_rows = ok vs
  op_soft_vote (i ∷ ins) [] attrs fns vs n_rows = ok vs
  op_soft_vote (i ∷ ins) (o ∷ outs) attrs fns vs n_rows = do
    let ws = pad_weights (suc (length ins)) (attr_floats attrs "weights")
    first ← get_value vs i
    let stacking = ltb 0 (length ins) && first.n_cols == 1
    let n_cols = if stacking then suc (length ins) else first.n_cols
    let zeros = replicate (n_rows * n_cols) (f64.literal (pos 0) 0)
    acc ← accumulate_votes stacking vs n_rows n_cols 0 ws (i ∷ ins) zeros
    rows ←
        tabulate (λ r. tabulate (λ c. defined (get_elem? acc (r * n_cols + c))) 0 n_cols) 0 n_rows
    let shares = map (normalized (attr_b attrs "normalize_rows" Bool.false) (weight_sum ws)) rows
    wide ← any_f64 vs (i ∷ ins)
    t ←
        out_buf wide n_rows n_cols
          λ r c. defined (get_elem? shares r) >>= λ row. defined (get_elem? row c)
    put_labels outs o n_rows (put o t vs)
