-- ===== src/Operators/Samme.antt =====
-- src/operator_registry.cpp, op_samme_vote: the decision function of AdaBoost and its softmax.
use mathlib.Core.List.{flatten}
use omle_runtime.Prelude.{
  ℕ, suc, ◌-◌, max, Bool, List, [], ◌∷◌, String, map, length, get_elem?, replicate, if◌then◌else◌,
}
use omle_runtime.Prelude.Int.{ℤ, pos, negsuc, eqb_ℤ}
use omle_runtime.Floats.{Floats, F64, exp}
use omle_runtime.Status.{Result, ok, undefined, defined, map_result, tabulate, ◌>>=◌}
use omle_runtime.Tensor.{Tensor, float_cell, get}
use omle_runtime.ValueStore.{ValueStore, get_value, put}
use omle_runtime.ValueStore.Slots.{dense_of}
use omle_runtime.Operators.{Operator, attr_floats, attr_i}
use omle_runtime.Operators.Gathered.{float_column}
use omle_runtime.Operators.Reduce.{pad_weights, weight_sum, max_element}

module _ ⦃fl : Floats⦄ where
  open fl use {f32, f64, narrow}

  -- dec[c] += (c == cls) ? wt : neg, for each c from `start` on
  unfoldable pub add_decision : ℤ → F64 → F64 → ℕ → List F64 → List F64
  add_decision cls wt against start [] = []
  add_decision cls wt against start (d ∷ dec) =
      f64.add d (if eqb_ℤ (pos start) cls then wt else against)
      ∷ add_decision cls wt against (suc start) dec

  -- One input: its vote in the decisions of every row.
  unfoldable pub add_decisions : List ℤ → F64 → F64 → List (List F64) → List (List F64)
  unfolding add_decision
  add_decisions [] wt against decs = decs
  add_decisions (cls ∷ labels) wt against [] = []
  add_decisions (cls ∷ labels) wt against (dec ∷ decs) =
      add_decision cls wt against 0 dec ∷ add_decisions labels wt against decs

  -- The decision function: the loop over the inputs with their weights.
  unfoldable pub decide :
      ValueStore
      → ℕ
      → F64
      → F64
      → List F64
      → List String
      → List (List F64)
      → Result (List (List F64))
  unfolding get_value get add_decisions
  decide vs n_rows wsum km1 ws [] decs = ok decs
  decide vs n_rows wsum km1 [] (name ∷ names) decs = undefined
  decide vs n_rows wsum km1 (w ∷ ws) (name ∷ names) decs = do
    pred ← get_value vs name
    labels ← tabulate (λ r. get pred r 0 >>= λ x. ok (f64.to_int Bool.true 32 x)) 0 n_rows
    let wt = f64.div w wsum
    decide vs n_rows wsum km1 ws names (add_decisions labels wt (f64.div (f64.neg wt) km1) decs)

  -- expsum += std::exp(dec[c] - max_d)
  unfoldable pub exp_sum : F64 → F64 → List F64 → F64
  exp_sum s top [] = s
  exp_sum s top (d ∷ dec) = exp_sum (f64.add s (f64.math1 exp (f64.sub d top))) top dec

  -- The softmax of a row's decisions, divided by K - 1 before; an empty row has no largest element.
  unfoldable pub softmax_row : F64 → List F64 → Result (List F64)
  unfolding exp_sum max_element
  softmax_row km1 [] = undefined
  softmax_row km1 (d ∷ dec) =
      let scaled = map (λ x. f64.div x km1) (d ∷ dec) in
      let top = max_element (f64.div d km1) (map (λ x. f64.div x km1) dec) in
      let total = exp_sum (f64.literal (pos 0) 0) top scaled in
      ok (map (λ x. f64.div (f64.math1 exp (f64.sub x top)) total) scaled)

  -- if (pc > best_p) { best_p = pc; best = c; }
  unfoldable pub best_class : F64 → ℕ → ℕ → List F64 → ℕ
  best_class best_p best c [] = best
  best_class best_p best c (p ∷ ps) =
      best_class (if f64.lt best_p p then p else best_p) (if f64.lt best_p p then c else best)
        (suc c) ps

  -- K, which sizes the buffers: with a negative one their allocation has no meaning.
  classes : ℤ → Result ℕ
  classes (pos k) = ok k
  classes (negsuc k) = undefined

  -- The labels as the second output, where the node has one.
  put_classes : List String → Tensor → ValueStore → ValueStore
  unfolding put
  put_classes [] t vs = vs
  put_classes (p ∷ outs) t vs = put p t vs

  -- op_samme_vote
  unfoldable pub op_samme_vote : Operator
  unfolding attr_i attr_floats pad_weights weight_sum classes decide softmax_row best_class put
      put_classes float_column
  op_samme_vote [] outs attrs fns vs n_rows = ok vs
  op_samme_vote (i ∷ ins) [] attrs fns vs n_rows = ok vs
  op_samme_vote (i ∷ ins) (o ∷ outs) attrs fns vs n_rows = do
    let ws = pad_weights (suc (length ins)) (attr_floats attrs "weights")
    k ← classes (attr_i attrs "n_classes" (pos 2))
    let km1 = f64.of_int (pos (max 1 (k - 1)))
    decisions ←
        decide vs n_rows (weight_sum ws) km1 ws (i ∷ ins)
          (replicate n_rows (replicate k (f64.literal (pos 0) 0)))
    probs ← map_result (softmax_row km1) decisions
    pred ← float_column n_rows λ r. defined (get_elem? probs r) >>= λ ps.
        ok (f32.of_int (pos (best_class (f64.literal (negsuc 0) 0) 0 0 ps)))
    let cells = map (λ p. float_cell (narrow p)) (flatten probs)
    ok (put_classes outs pred (put o (dense_of Bool.false n_rows k cells) vs))
