-- ===== src/Operators/Reduce.antt =====
-- src/operator_registry.cpp, the domain omle.core: the reductions of the elements that several inputs
-- have at the same place.
use omle_runtime.Prelude.{
  ℕ, zero, suc, ◌+◌, ◌*◌, ◌/◌, Option, none, some, List, [], ◌∷◌, String, foldl, length, get_elem?,
  lookup, if◌then◌else◌,
}
use omle_runtime.Prelude.Int.{pos}
use omle_runtime.Floats.{Floats, F64}
use omle_runtime.Status.{Result, ok, undefined, defined, map_result, tabulate, ◌>>=◌}
use omle_runtime.Tensor.{Tensor, get, numel}
use omle_runtime.ValueStore.{ValueStore, get_value, put}
use omle_runtime.Ast.{AttrVal, AttributeMap, attr_floats_val}
use omle_runtime.Operators.{
  Operator, any_f64, attr_floats, resolve_t, wants_f64, view_w, read_wide, out_cell, out_cells,
  out_buf,
}

module _ ⦃fl : Floats⦄ where
  open fl use {f64}

  -- Reducer
  abbrev pub Reducer : Type 0
  Reducer = List F64 → Result F64

  -- vals[k] = vs.get(in[k]).get(r, c)
  unfoldable pub values_at : ValueStore → List String → ℕ → ℕ → Result (List F64)
  unfolding get_value get
  values_at vs ins r c = map_result (λ name. get_value vs name >>= λ t. get t r c) ins

  -- variadic_reduce_dispatch, with variadic_reduce: of at least one input
  unfoldable pub variadic_reduce : ValueStore → String → List String → ℕ → Reducer → Result Tensor
  unfolding get_value any_f64 values_at out_buf
  variadic_reduce vs first rest n_rows reducer = do
    wide ← any_f64 vs (first ∷ rest)
    t ← get_value vs first
    out_buf wide n_rows t.n_cols (λ r c. values_at vs (first ∷ rest) r c >>= reducer)

  -- The operators that only reduce.
  unfoldable pub reduce_operator : (ℕ → Reducer) → Operator
  unfolding variadic_reduce put
  reduce_operator reducer [] outs attrs fns vs n_rows = ok vs
  reduce_operator reducer (i ∷ ins) [] attrs fns vs n_rows = ok vs
  reduce_operator reducer (i ∷ ins) (o ∷ outs) attrs fns vs n_rows =
      variadic_reduce vs i ins n_rows (reducer (suc (length ins))) >>= λ t. ok (put o t vs)

  -- std::accumulate from 0.0
  unfoldable pub accumulate : List F64 → F64
  accumulate xs = foldl (λ s x. f64.add s x) (f64.literal (pos 0) 0) xs

  -- op_sum
  unfoldable pub op_sum : Operator
  unfolding reduce_operator accumulate
  op_sum = reduce_operator λ n xs. ok (accumulate xs)

  -- op_average
  unfoldable pub op_average : Operator
  unfolding reduce_operator accumulate
  op_average = reduce_operator λ n xs. ok (f64.div (accumulate xs) (f64.of_int (pos n)))

  -- std::min_element: the first of the smallest
  unfoldable pub min_element : F64 → List F64 → F64
  min_element best [] = best
  min_element best (x ∷ xs) = min_element (if f64.lt x best then x else best) xs

  -- std::max_element: the first of the largest
  unfoldable pub max_element : F64 → List F64 → F64
  max_element best [] = best
  max_element best (x ∷ xs) = max_element (if f64.lt best x then x else best) xs

  least : List F64 → Result F64
  unfolding min_element
  least [] = undefined
  least (x ∷ xs) = ok (min_element x xs)

  greatest : List F64 → Result F64
  unfolding max_element
  greatest [] = undefined
  greatest (x ∷ xs) = ok (max_element x xs)

  -- op_min
  unfoldable pub op_min : Operator
  unfolding reduce_operator least
  op_min = reduce_operator λ n xs. least xs

  -- op_max
  unfoldable pub op_max : Operator
  unfolding reduce_operator greatest
  op_max = reduce_operator λ n xs. greatest xs

  insert_value : F64 → List F64 → List F64
  insert_value x [] = x ∷ []
  insert_value x (y ∷ ys) = if f64.lt x y then x ∷ y ∷ ys else y ∷ insert_value x ys

  -- The values in order, as std::nth_element and std::sort place them.
  unfoldable pub sorted : List F64 → List F64
  unfolding insert_value
  sorted [] = []
  sorted (x ∷ xs) = insert_value x (sorted xs)

  -- op_median: the upper one of two in the middle
  unfoldable pub op_median : Operator
  unfolding reduce_operator sorted
  op_median = reduce_operator λ n xs. defined (get_elem? (sorted xs) (length xs / 2))

  -- while (weights.size() < n) weights.push_back(1.0)
  unfoldable pub pad_weights : ℕ → List F64 → List F64
  pad_weights zero ws = ws
  pad_weights (suc n) [] = f64.literal (pos 1) 0 ∷ pad_weights n []
  pad_weights (suc n) (w ∷ ws) = w ∷ pad_weights n ws

  -- s += weights[k] * v[k]
  unfoldable pub weighted_total : F64 → List F64 → List F64 → Result F64
  weighted_total s ws [] = ok s
  weighted_total s [] (x ∷ xs) = undefined
  weighted_total s (w ∷ ws) (x ∷ xs) = weighted_total (f64.add s (f64.mul w x)) ws xs

  tensor_weights : Option Tensor → Result (List F64)
  unfolding get numel
  tensor_weights none = ok []
  tensor_weights (some t) = tabulate (get t 0) 0 (numel t)

  weights_of : Option AttrVal → ValueStore → List String → AttributeMap → Result (List F64)
  unfolding resolve_t tensor_weights
  weights_of (some (attr_floats_val ws)) vs ins attrs = ok ws
  weights_of _ vs ins attrs = resolve_t vs ins (length ins) attrs "weights" >>= tensor_weights

  -- The only input, with its columns weighted: an elementwise product.
  unfoldable pub weighted_columns : ValueStore → String → List F64 → ℕ → Result Tensor
  unfolding get_value view_w read_wide out_cell out_cells pad_weights wants_f64
  weighted_columns vs i ws n_rows = do
    src ← get_value vs i
    cells ← view_w (wants_f64 src) src
    out_cells (wants_f64 src) n_rows src.n_cols λ r c. do
      x ← defined (get_elem? cells (r * src.n_cols + c)) >>= read_wide (wants_f64 src)
      w ← defined (get_elem? (pad_weights src.n_cols ws) c)
      ok (out_cell (wants_f64 src) (f64.mul x w))

  -- op_weighted_sum
  unfoldable pub op_weighted_sum : Operator
  unfolding lookup weights_of weighted_columns put reduce_operator pad_weights weighted_total
  op_weighted_sum (i ∷ []) (o ∷ outs) attrs fns vs n_rows =
      weights_of (lookup "weights" attrs) vs (i ∷ []) attrs >>= λ ws.
      weighted_columns vs i ws n_rows >>= λ t. ok (put o t vs)
  op_weighted_sum (i ∷ ins) (o ∷ outs) attrs fns vs n_rows =
      weights_of (lookup "weights" attrs) vs (i ∷ ins) attrs >>= λ ws.
      reduce_operator (λ n. weighted_total (f64.literal (pos 0) 0) (pad_weights n ws)) (i ∷ ins)
        (o ∷ outs) attrs fns vs n_rows
  op_weighted_sum ins outs attrs fns vs n_rows = ok vs

  -- The sum of the weights, 1 for a sum of 0.
  unfoldable pub weight_sum : List F64 → F64
  unfolding accumulate
  weight_sum ws =
      if f64.eq (accumulate ws) (f64.literal (pos 0) 0)
      then f64.literal (pos 1) 0
      else accumulate ws

  -- op_weighted_average
  unfoldable pub op_weighted_average : Operator
  unfolding reduce_operator pad_weights weighted_total weight_sum attr_floats
  op_weighted_average ins outs attrs fns vs n_rows =
      reduce_operator
        (λ n xs.
          let ws = pad_weights n (attr_floats attrs "weights") in
          weighted_total (f64.literal (pos 0) 0) ws xs >>= λ s. ok (f64.div s (weight_sum ws)))
        ins outs attrs fns vs n_rows

  insert_weighted : F64 × F64 → List (F64 × F64) → List (F64 × F64)
  insert_weighted x [] = x ∷ []
  insert_weighted x (y ∷ ys) = if f64.lt x.0 y.0 then x ∷ y ∷ ys else y ∷ insert_weighted x ys

  -- The values with their weights, sorted by the value.
  unfoldable pub sorted_weighted : List F64 → List F64 → Result (List (F64 × F64))
  unfolding insert_weighted
  sorted_weighted ws [] = ok []
  sorted_weighted [] (x ∷ xs) = undefined
  sorted_weighted (w ∷ ws) (x ∷ xs) =
      sorted_weighted ws xs >>= λ pairs. ok (insert_weighted (x, w) pairs)

  -- cum += weights[i]; if (cum >= half) return v[i]; and the last value at the end
  unfoldable pub past_half : F64 → F64 → F64 → List (F64 × F64) → F64
  past_half half cum final [] = final
  past_half half cum final ((x, w) ∷ pairs) =
      let later = past_half half (f64.add cum w) x pairs in
      if f64.le half (f64.add cum w) then x else later

  weighted_median : List F64 → Reducer
  unfolding sorted_weighted past_half accumulate
  weighted_median ws [] = undefined
  weighted_median ws (x ∷ xs) = sorted_weighted ws (x ∷ xs) >>= λ pairs.
      ok (
        past_half (f64.mul (accumulate ws) (f64.literal (pos 5) 1)) (f64.literal (pos 0) 0) x pairs)

  -- op_weighted_median
  unfoldable pub op_weighted_median : Operator
  unfolding reduce_operator pad_weights attr_floats weighted_median
  op_weighted_median ins outs attrs fns vs n_rows =
      reduce_operator (λ n. weighted_median (pad_weights n (attr_floats attrs "weights"))) ins outs
        attrs fns vs n_rows
