-- ===== src/Operators/Target.antt =====
-- src/operator_registry.cpp, the domain omle.feature: the target encoder.
use omle_runtime.Prelude.{
  ℕ, ◌+◌, ◌*◌, ◌/◌, Bool, ◌&&◌, ◌||◌, Option, none, some, List, String, length, if◌then◌else◌,
}
use omle_runtime.Prelude.Int.{ℤ, pos, ◌+ℤ◌}
use omle_runtime.Floats.{Floats, F64}
use omle_runtime.Status.{Result, ok, ◌>>=◌}
use omle_runtime.Tensor.{Tensor, float64, get, is_string, numel, same_dtype}
use omle_runtime.ValueStore.{ValueStore, get_value, put}
use omle_runtime.Operators.{Operator, any_f64, resolve_t, resolve_t64, out_buf}
use omle_runtime.Operators.Gathered.{with_names, get_col}
use omle_runtime.Operators.Lookup.{
  scan_range, feature_total, cell_value, offset_or, exact_test, table_values, first_is_string,
}
use omle_runtime.Operators.Encoders.{search_text, found_or}

module _ ⦃fl : Floats⦄ where
  open fl use {f64}

  module _ (parse : String → Option F64) (vs : ValueStore) (ins : List String) where
    -- The range of the categories of a feature, an equal part of them where no offset is stored.
    target_range : Tensor → Option Tensor → ℕ → ℕ → Result (ℤ × ℤ)
    unfolding offset_or numel
    target_range cats off nf f =
        let part = numel cats / nf in
        offset_or off f (pos (f * part)) >>= λ lo.
        offset_or off (f + 1) (pos ((f + 1) * part)) >>= λ hi. ok (lo, hi)

    default_value : Option Tensor → ℕ → Result F64
    unfolding get
    default_value none f = ok (f64.literal (pos 0) 0)
    default_value (some t) f = get t 0 f

    -- enc_t->get(0, k) of the hit
    encoding_at : Tensor → ℤ → ℕ → Result F64
    unfolding get_col
    encoding_at enc lo p = get_col enc 0 (lo +ℤ pos p)

    -- The tensor of op_target_encoder.
    unfoldable pub target_codes :
        Bool → Tensor → Tensor → Option Tensor → Option Tensor → Bool → ℕ → ℕ → Result Tensor
    unfolding out_buf target_range default_value found_or encoding_at search_text table_values
        cell_value scan_range exact_test
    target_codes by_text cats enc off default wide n_rows nf =
        let cell = λ (search : ℤ → ℤ → ℕ → ℕ → Result (Option ℕ)) (r : ℕ) (f : ℕ).
          default_value default f >>= λ y. target_range cats off nf f >>= λ (lo, hi).
          search lo hi r f >>= λ hit. found_or parse vs ins hit y (encoding_at enc lo) in
        let by_value = table_values parse cats >>= λ table.
        out_buf wide n_rows nf (
          cell λ lo hi r f. cell_value vs ins r f >>= λ x. scan_range (exact_test table x) lo hi) in
        if by_text then out_buf wide n_rows nf (cell (search_text parse vs ins cats)) else by_value

    target_put :
        Option Tensor
        → Option Tensor
        → Option Tensor
        → Option Tensor
        → String
        → String
        → ℕ
        → Result ValueStore
    unfolding get_value put any_f64 feature_total is_string same_dtype target_codes
    target_put (some cats) (some enc) off default i o n_rows = do
      nf ← feature_total vs ins
      wide ← any_f64 vs ins
      text ← first_is_string vs i
      t ←
          target_codes (text && is_string cats) cats enc off default
            (wide || same_dtype enc.dtype float64) n_rows nf
      ok (put o t vs)
    target_put _ _ off default i o n_rows = get_value vs i >>= λ t. ok (put o t vs)

  module _ (parse : String → Option F64) where
    -- op_target_encoder
    unfoldable pub op_target_encoder : Operator
    unfolding feature_total resolve_t resolve_t64 target_put
    op_target_encoder ins outs attrs fns vs n_rows = with_names ins outs vs λ i o. do
      nf ← feature_total vs ins
      cats ← resolve_t64 vs ins (length ins) attrs "categories"
      enc ← resolve_t64 vs ins (length ins + 1) attrs "encoded_values"
      off ← resolve_t vs ins (length ins + 2) attrs "category_offsets"
      default ← resolve_t64 vs ins (length ins + 3) attrs "default_values"
      target_put parse vs ins cats enc off default i o n_rows
