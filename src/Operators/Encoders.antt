-- ===== src/Operators/Encoders.antt =====
-- src/operator_registry.cpp, the domain omle.feature: the label, ordinal and target encoders.
use omle_runtime.Prelude.{
  ℕ, zero, suc, ◌+◌, Bool, true, false, ◌||◌, Option, none, some, List, [], ◌∷◌, String, length,
  ltb, if◌then◌else◌,
}
use omle_runtime.Prelude.Int.{ℤ, pos, negsuc}
use omle_runtime.Floats.{Floats, F64}
use omle_runtime.Status.{Result, ok, ◌>>=◌}
use omle_runtime.Tensor.{Tensor, float64, get, is_string, numel, same_dtype}
use omle_runtime.ValueStore.{ValueStore, put}
use omle_runtime.Operators.{Operator, any_f64, resolve_t, resolve_t64, out_buf}
use omle_runtime.Operators.Gathered.{with_names, get_col}
use omle_runtime.Operators.Lookup.{
  scan_range, feature_total, cell_text, cell_value, offset_or, text_test, value_test, table_values,
  first_is_string, total_of, category_range,
}

module _ ⦃fl : Floats⦄ where
  open fl use {f64}

  -- The position of a hit, NaN without one.
  position_or_nan : Option ℕ → F64
  position_or_nan none = f64.nan
  position_or_nan (some p) = f64.of_int (pos p)

  wide_tensor : Option Tensor → Bool
  unfolding same_dtype
  wide_tensor none = false
  wide_tensor (some t) = same_dtype t.dtype float64

  module _ (parse : String → Option F64) (vs : ValueStore) (ins : List String) where
    -- A search for the cell of feature f in row r, among the categories from lo to hi.
    unfoldable pub search_text : Tensor → ℤ → ℤ → ℕ → ℕ → Result (Option ℕ)
    unfolding cell_text scan_range text_test
    search_text table lo hi r f = cell_text vs ins r f >>= λ x. scan_range (text_test table x) lo hi

    search_value : List F64 → ℤ → ℤ → ℕ → ℕ → Result (Option ℕ)
    unfolding cell_value scan_range value_test
    search_value table lo hi r f =
        cell_value vs ins r f >>= λ x. scan_range (value_test table x) lo hi

    -- The range of the labels of feature f.
    label_range : Option Tensor → Option Tensor → ℕ → Result (ℤ × ℤ)
    unfolding offset_or total_of
    label_range labels off f = offset_or off f (pos 0) >>= λ lo.
        offset_or off (f + 1) (pos (total_of labels)) >>= λ hi. ok (lo, hi)

    -- The tensor of op_label_encoder: the branches for string and number inputs.
    unfoldable pub label_codes : Bool → Option Tensor → Option Tensor → Bool → ℕ → ℕ → Result Tensor
    unfolding out_buf is_string table_values search_text search_value label_range cell_value
        position_or_nan
    label_codes true none off wide n_rows nf = out_buf wide n_rows nf (λ r f. ok f64.nan)
    label_codes true (some labels) off wide n_rows nf =
        if is_string labels
        then out_buf wide n_rows nf (λ r f. label_range (some labels) off f >>= λ (lo, hi).
            search_text labels lo hi r f >>= λ p. ok (position_or_nan p))
        else out_buf wide n_rows nf (λ r f. ok f64.nan)
    label_codes false none off wide n_rows nf = out_buf wide n_rows nf (cell_value vs ins)
    label_codes false (some labels) off wide n_rows nf = table_values parse labels >>= λ table.
        out_buf wide n_rows nf (λ r f. label_range (some labels) off f >>= λ (lo, hi).
        search_value table lo hi r f >>= λ p. ok (position_or_nan p))

    -- encode_val, where the values have the position, and the position otherwise
    encoded_at : Option Tensor → ℤ → ℕ → Result F64
    unfolding numel get_col
    encoded_at none lo p = ok (f64.of_int (pos p))
    encoded_at (some t) (negsuc a) p = ok (f64.of_int (pos p))
    encoded_at (some t) (pos lo) p =
        if ltb (lo + p) (numel t) then get t 0 (lo + p) else ok (f64.of_int (pos p))

    -- unseen_val
    unseen_value : Option Tensor → ℕ → Result F64
    unfolding numel get
    unseen_value none f = ok f64.nan
    unseen_value (some t) f = if ltb f (numel t) then get t 0 f else ok f64.nan

    unfoldable pub found_or : Option ℕ → F64 → (ℕ → Result F64) → Result F64
    found_or none other value = ok other
    found_or (some p) other value = value p

    -- One cell of op_ordinal_encoder, by the search that its input takes.
    unfoldable pub ordinal_cell :
        (ℤ → ℤ → ℕ → ℕ → Result (Option ℕ))
        → Option Tensor
        → Option Tensor
        → Option Tensor
        → Option Tensor
        → ℕ
        → ℕ
        → Result F64
    unfolding category_range unseen_value found_or encoded_at
    ordinal_cell search cats off values unknown r f = do
      (lo, hi) ← category_range cats off f
      other ← unseen_value unknown f
      hit ← search lo hi r f
      found_or hit other (encoded_at values lo)

    -- The tensor of op_ordinal_encoder.
    unfoldable pub ordinal_codes :
        Bool
        → Option Tensor
        → Option Tensor
        → Option Tensor
        → Option Tensor
        → Bool
        → ℕ
        → ℕ
        → Result Tensor
    unfolding out_buf is_string table_values search_text search_value cell_value ordinal_cell
    ordinal_codes true none off values unknown wide n_rows nf =
        out_buf wide n_rows nf (λ r f. ok f64.nan)
    ordinal_codes true (some cats) off values unknown wide n_rows nf =
        if is_string cats
        then out_buf wide n_rows nf (ordinal_cell (search_text cats) (some cats) off values unknown)
        else out_buf wide n_rows nf (λ r f. ok f64.nan)
    ordinal_codes false none off values unknown wide n_rows nf =
        out_buf wide n_rows nf (cell_value vs ins)
    ordinal_codes false (some cats) off values unknown wide n_rows nf =
        table_values parse cats >>= λ table.
        out_buf wide n_rows nf (ordinal_cell (search_value table) (some cats) off values unknown)

  -- One column of the codes for each output, from column i on, with `left` columns to go.
  put_code_columns : Bool → Tensor → ℕ → ℕ → ℕ → List String → ValueStore → Result ValueStore
  unfolding out_buf get put
  put_code_columns wide t n_rows i left [] vs = ok vs
  put_code_columns wide t n_rows i zero (o ∷ outs) vs = ok vs
  put_code_columns wide t n_rows i (suc left) (o ∷ outs) vs =
      out_buf wide n_rows 1 (λ r c. get t r i) >>= λ col.
      put_code_columns wide t n_rows (suc i) left outs (put o col vs)

  module _ (parse : String → Option F64) where
    -- op_label_encoder
    unfoldable pub op_label_encoder : Operator
    unfolding put any_f64 feature_total resolve_t resolve_t64 first_is_string label_codes
        put_code_columns
    op_label_encoder ins outs attrs fns vs n_rows = with_names ins outs vs λ i o. do
      nf ← feature_total vs ins
      wide ← any_f64 vs ins
      labels ← resolve_t64 vs ins (length ins) attrs "labels"
      off ← resolve_t vs ins (length ins) attrs "label_offsets"
      text ← first_is_string vs i
      t ← label_codes parse vs ins text labels off wide n_rows nf
      (if ltb 1 (length outs) then put_code_columns wide t n_rows 0 nf outs vs else ok (put o t vs))

    -- op_ordinal_encoder
    unfoldable pub op_ordinal_encoder : Operator
    unfolding put any_f64 feature_total resolve_t resolve_t64 first_is_string wide_tensor
        ordinal_codes
    op_ordinal_encoder ins outs attrs fns vs n_rows = with_names ins outs vs λ i o. do
      nf ← feature_total vs ins
      cats ← resolve_t64 vs ins (length ins) attrs "categories"
      off ← resolve_t vs ins (length ins) attrs "category_offsets"
      values ← resolve_t64 vs ins (length ins) attrs "encoded_values"
      unknown ← resolve_t64 vs ins (length ins) attrs "default_values"
      wide ← any_f64 vs ins
      text ← first_is_string vs i
      t ←
          ordinal_codes parse vs ins text cats off values unknown (wide || wide_tensor values)
            n_rows nf
      ok (put o t vs)
