-- ===== src/Nodes/OneHot.antt =====
-- src/nodes/ohe_node.h, src/nodes/ohe_node.cpp: the one-hot encoder over maps of categories. The buffer
-- is reused between calls, cleared at the start of each.
use mathlib.Core.List.{flatten}
use omle_runtime.Prelude.{
  ℕ, zero, suc, ◌+◌, ◌*◌, Bool, true, false, not, ◌&&◌, Option, none, some, List, [], ◌∷◌, String,
  Map, lookup, map, set, get_elem?, replicate, length, ltb, leb, if◌then◌else◌,
}
use omle_runtime.Prelude.Int.{ℤ, pos, negsuc}
use omle_runtime.Floats.{Floats, F32}
use omle_runtime.Status.{Result, ok, undefined, defined, tabulate, fold_range, ◌>>=◌}
use omle_runtime.Tensor.{Tensor, float_cell, is_string, str_at, get}
use omle_runtime.ValueStore.{ValueStore, get_value, put}
use omle_runtime.ValueStore.Slots.{dense_of}
use omle_runtime.Executor.{GraphNode}

module _ ⦃fl : Floats⦄ where
  open fl use {f32, f64}

  -- OHENode, with the names of GraphNode
  pub record OneHotNode : Type 0 where
    pub in_names : List String
    pub out_names : List String
    pub per_col : Bool
    pub cat_maps : List (Map ℕ)
    pub feat_widths : List ℕ
    pub total_output_cols : ℕ

  -- vs.get(in_names[f])
  unfoldable pub input_at : OneHotNode → ValueStore → ℕ → Result Tensor
  unfolding get_value
  input_at node vs f = defined (get_elem? node.in_names f) >>= get_value vs

  -- feat_is_str of the features from f on; `wide` is the flag of the one tensor.
  unfoldable pub string_flags : OneHotNode → ValueStore → Bool → ℕ → ℕ → Result (List Bool)
  unfolding input_at is_string
  string_flags node vs wide f zero = ok []
  string_flags node vs wide f (suc left) = do
    flag ←
        (if not node.per_col
          then ok wide
          else if ltb f (length node.in_names)
          then (input_at node vs f >>= λ t. ok (is_string t))
          else ok false)
    rest ← string_flags node vs wide (suc f) left
    ok (flag ∷ rest)

  -- The tensor and the column in which feature f is.
  source_of : OneHotNode → ValueStore → ℕ → Result (Tensor × ℕ)
  unfolding input_at
  source_of node vs f =
      if node.per_col
      then (input_at node vs f >>= λ t. ok (t, 0))
      else (input_at node vs 0 >>= λ t. ok (t, f))

  index_in : ℤ → ℕ → Option ℕ
  index_in (negsuc n) width = none
  index_in (pos n) width = if ltb n width then some n else none

  -- The column of the feature's block that row r sets, if any.
  unfoldable pub hot_column : OneHotNode → ValueStore → ℕ → ℕ → Bool → Map ℕ → ℕ → Result (Option ℕ)
  unfolding source_of str_at get lookup index_in
  hot_column node vs r f true cats width = do
    (t, c) ← source_of node vs f
    x ← str_at t r c
    ok (lookup x cats)
  hot_column node vs r f false cats width = do
    (t, c) ← source_of node vs f
    x ← get t r c
    ok (index_in (f64.to_int true 32 x) width)

  -- tl_scratch[i] = 1.0f
  unfoldable pub set_one : ℕ → List F32 → Result (List F32)
  set_one i scratch =
      defined (get_elem? scratch i) >>= λ old. ok (set scratch i (f32.literal (pos 1) 0))

  unfoldable pub mark : Option ℕ → ℕ → List F32 → Result (List F32)
  unfolding set_one
  mark none base scratch = ok scratch
  mark (some i) base scratch = set_one (base + i) scratch

  -- The loop over the features of row r, from feature f and column out_off on.
  unfoldable pub encode_row :
      OneHotNode → ValueStore → ℕ → ℕ → ℕ → List (Map ℕ) → List Bool → List F32 → Result (List F32)
  unfolding hot_column mark
  encode_row node vs r f out_off [] flags scratch = ok scratch
  encode_row node vs r f out_off (cats ∷ maps) [] scratch = undefined
  encode_row node vs r f out_off (cats ∷ maps) (flag ∷ flags) scratch =
      if node.per_col && leb (length node.in_names) f
      then ok scratch
      else (defined (get_elem? node.feat_widths f) >>= λ width.
          hot_column node vs r f flag cats width >>= λ hot.
          mark hot (r * node.total_output_cols + out_off) scratch
          >>= encode_row node vs r (suc f) (out_off + width) maps flags)

  -- All rows.
  unfoldable pub encode_rows : OneHotNode → ValueStore → ℕ → Result (List F32)
  unfolding string_flags encode_row input_at is_string
  encode_rows node vs n_rows = do
    wide ← (if node.per_col then ok false else (input_at node vs 0 >>= λ t. ok (is_string t)))
    flags ← string_flags node vs wide 0 (length node.cat_maps)
    fold_range (λ r scratch. encode_row node vs r 0 0 node.cat_maps flags scratch) 0 n_rows
        (replicate (n_rows * node.total_output_cols) (f32.literal (pos 0) 0))

  -- One block of the buffer, as the tensor of an output.
  unfoldable pub block_of : OneHotNode → List F32 → ℕ → ℕ → ℕ → Result Tensor
  block_of node scratch n_rows out_off width = do
    rows ←
        tabulate
          (λ r.
            tabulate (λ c. defined (get_elem? scratch (r * node.total_output_cols + out_off + c))) 0
              width)
          0 n_rows
    ok (dense_of false n_rows width (map float_cell (flatten rows)))

  -- The loop over the outputs of a node with several.
  unfoldable pub put_blocks :
      OneHotNode
      → List F32
      → ℕ
      → ℕ
      → List (Map ℕ)
      → List ℕ
      → List String
      → ValueStore
      → Result ValueStore
  unfolding block_of put
  put_blocks node scratch n_rows out_off [] widths names vs = ok vs
  put_blocks node scratch n_rows out_off (m ∷ maps) widths [] vs = ok vs
  put_blocks node scratch n_rows out_off (m ∷ maps) [] (name ∷ names) vs = undefined
  put_blocks node scratch n_rows out_off (m ∷ maps) (w ∷ widths) (name ∷ names) vs = do
    t ← block_of node scratch n_rows out_off w
    put_blocks node scratch n_rows (out_off + w) maps widths names (put name t vs)

  put_encoded : OneHotNode → List F32 → ℕ → List String → ValueStore → Result ValueStore
  unfolding put_blocks put
  put_encoded node scratch n_rows [] vs = ok vs
  put_encoded node scratch n_rows (name ∷ []) vs =
      ok (put name (dense_of false n_rows node.total_output_cols (map float_cell scratch)) vs)
  put_encoded node scratch n_rows names vs =
      put_blocks node scratch n_rows 0 node.cat_maps node.feat_widths names vs

  -- OHENode::execute
  unfoldable pub execute_one_hot : OneHotNode → GraphNode
  unfolding encode_rows put_encoded
  execute_one_hot node fns vs n_rows =
      if ltb 0 (length node.out_names)
      then (encode_rows node vs n_rows >>= λ scratch.
          put_encoded node scratch n_rows node.out_names vs)
      else ok vs
