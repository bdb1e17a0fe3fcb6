-- ===== src/Operators/OneHot.antt =====
-- src/operator_registry.cpp, op_one_hot_encoder: the columns of the categories of each feature.
use omle_runtime.Prelude.{
  ℕ, zero, suc, ◌+◌, ◌*◌, Bool, true, false, Option, none, some, List, [], ◌∷◌, String, length,
  get_elem?, set, replicate, ltb, if◌then◌else◌,
}
use omle_runtime.Prelude.Int.{ℤ, pos, negsuc, ◌+ℤ◌, ◌-ℤ◌, ltb_ℤ}
use omle_runtime.Floats.{Floats, F32, F64}
use omle_runtime.Status.{Result, ok, defined, tabulate, fold_range, ◌>>=◌}
use omle_runtime.Tensor.{Tensor, float_cell, is_string}
use omle_runtime.ValueStore.{ValueStore, put}
use omle_runtime.Operators.{Operator, resolve_t, out_cells}
use omle_runtime.Operators.Gathered.{with_names, get_col}
use omle_runtime.Operators.Lookup.{
  nat_index, scan_range, feature_total, feature_source, cell_text, cell_value, text_test,
  category_range,
}

module _ ⦃fl : Floats⦄ where
  open fl use {f32, f64}

  text_table : Option Tensor → Bool
  unfolding is_string
  text_table none = false
  text_table (some t) = is_string t

  -- `cats_t->get(0, k) == x`
  number_test : Tensor → F64 → ℤ → ℕ → Result Bool
  unfolding get_col
  number_test table x k at = get_col table 0 k >>= λ v. ok (f64.eq v x)

  -- A position that a number is, where the block has it.
  block_index : ℤ → ℤ → Option ℕ
  block_index (negsuc n) width = none
  block_index (pos n) width = if ltb_ℤ (pos n) width then some n else none

  text_hit : Option Tensor → String → ℤ → ℤ → Result (Option ℕ)
  unfolding is_string scan_range text_test
  text_hit none x lo hi = ok none
  text_hit (some cats) x lo hi =
      if is_string cats then scan_range (text_test cats x) lo hi else ok none

  number_hit : Option Tensor → F64 → ℤ → ℤ → Result (Option ℕ)
  unfolding is_string scan_range number_test block_index
  number_hit none x lo hi = ok (block_index (f64.to_int true 32 x) (hi -ℤ lo))
  number_hit (some cats) x lo hi =
      if is_string cats
      then ok (block_index (f64.to_int true 32 x) (hi -ℤ lo))
      else scan_range (number_test cats x) lo hi

  -- The column of the block of feature f that row r sets, if any.
  unfoldable pub hot_column :
      ValueStore → List String → Option Tensor → ℤ → ℤ → ℕ → ℕ → Result (Option ℕ)
  unfolding feature_source text_table is_string cell_text cell_value text_hit number_hit
  hot_column vs ins cats lo hi r f = feature_source vs ins f >>= λ (t, c).
      let by_text =
        (if text_table cats then cell_text vs ins r f else ok "") >>= λ x. text_hit cats x lo hi in
      let by_number = cell_value vs ins r f >>= λ x. number_hit cats x lo hi in
      if is_string t then by_text else by_number

  -- result.at(r, i) = 1.0f
  unfoldable pub set_hot : Option ℕ → ℕ → ℤ → List F32 → Result (List F32)
  set_hot none row off buf = ok buf
  set_hot (some p) row off buf = do
    i ← nat_index (pos row +ℤ off +ℤ pos p)
    old ← defined (get_elem? buf i)
    ok (set buf i (f32.literal (pos 1) 0))

  -- The loop over the features of row r, from feature f and column off on, with `left` features to go.
  unfoldable pub encode_features :
      ValueStore
      → List String
      → Option Tensor
      → Option Tensor
      → ℕ
      → ℕ
      → ℕ
      → ℤ
      → ℕ
      → List F32
      → Result (List F32)
  unfolding category_range hot_column set_hot
  encode_features vs ins cats offs r total f off zero buf = ok buf
  encode_features vs ins cats offs r total f off (suc left) buf = do
    (lo, hi) ← category_range cats offs f
    hot ← hot_column vs ins cats lo hi r f
    buf' ← set_hot hot (r * total) off buf
    encode_features vs ins cats offs r total (suc f) (off +ℤ (hi -ℤ lo)) left buf'

  -- The sum of the widths of the blocks from feature f on.
  unfoldable pub total_width : Option Tensor → Option Tensor → ℕ → ℕ → ℤ → Result ℤ
  unfolding category_range
  total_width cats offs f zero total = ok total
  total_width cats offs f (suc left) total = category_range cats offs f >>= λ (lo, hi).
      total_width cats offs (suc f) left (total +ℤ (hi -ℤ lo))

  -- One block as a tensor.
  block_tensor : List F32 → ℕ → ℕ → ℤ → ℕ → Result Tensor
  unfolding out_cells nat_index
  block_tensor buf n_rows total off width = out_cells false n_rows width λ r k.
      nat_index (pos (r * total + k) +ℤ off) >>= λ i.
      defined (get_elem? buf i) >>= λ x. ok (float_cell x)

  -- The loop over the outputs, from feature f and column off on, with `left` features to go.
  unfoldable pub put_blocks :
      Option Tensor
      → Option Tensor
      → List F32
      → ℕ
      → ℕ
      → ℕ
      → ℤ
      → ℕ
      → List String
      → ValueStore
      → Result ValueStore
  unfolding category_range nat_index block_tensor put
  put_blocks cats offs buf n_rows total f off left [] vs = ok vs
  put_blocks cats offs buf n_rows total f off zero (o ∷ outs) vs = ok vs
  put_blocks cats offs buf n_rows total f off (suc left) (o ∷ outs) vs = do
    (lo, hi) ← category_range cats offs f
    width ← nat_index (hi -ℤ lo)
    t ← block_tensor buf n_rows total off width
    put_blocks cats offs buf n_rows total (suc f) (off +ℤ (hi -ℤ lo)) left outs (put o t vs)

  -- op_one_hot_encoder
  unfoldable pub op_one_hot_encoder : Operator
  unfolding resolve_t feature_total feature_source total_width nat_index encode_features put_blocks
      block_tensor put
  op_one_hot_encoder ins outs attrs fns vs n_rows = with_names ins outs vs λ i o. do
    cats ← resolve_t vs ins (length ins) attrs "categories"
    offs ← resolve_t vs ins (length ins) attrs "category_offsets"
    nf ← feature_total vs ins
    sources ← tabulate (feature_source vs ins) 0 nf
    width ← total_width cats offs 0 nf (pos 0)
    total ← nat_index width
    buf ←
        fold_range (λ r. encode_features vs ins cats offs r total 0 (pos 0) nf) 0 n_rows
          (replicate (n_rows * total) (f32.literal (pos 0) 0))
    whole ← block_tensor buf n_rows total (pos 0) total
    (if ltb 1 (length outs)
        then put_blocks cats offs buf n_rows total 0 (pos 0) nf outs vs
        else ok (put o whole vs))
