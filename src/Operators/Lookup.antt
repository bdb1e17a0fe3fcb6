-- ===== src/Operators/Lookup.antt =====
-- src/operator_registry.cpp, the domain omle.feature: what the encoders share: the cell of a feature, the
-- range of its categories in a flat table, and the search in that range.
use omle_runtime.Prelude.{
  ℕ, zero, suc, ◌+◌, Bool, true, not, Option, none, some, List, [], ◌∷◌, String, length, get_elem?,
  ltb, if◌then◌else◌, same,
}
use omle_runtime.Prelude.Int.{ℤ, pos, negsuc, pos_part, ◌+ℤ◌, ◌-ℤ◌, leb_ℤ}
use omle_runtime.Floats.{Floats, F64}
use omle_runtime.Status.{Result, ok, undefined, defined, tabulate, ◌>>=◌}
use omle_runtime.Tensor.{Tensor, get, str_at, is_string, numel}
use omle_runtime.ValueStore.{ValueStore, get_value}

-- An index into a buffer.
unfoldable pub nat_index : ℤ → Result ℕ
nat_index (pos n) = ok n
nat_index (negsuc n) = undefined

-- std::min of two int
unfoldable pub min_ℤ : ℤ → ℤ → ℤ
min_ℤ a b = if leb_ℤ a b then a else b

module _ ⦃fl : Floats⦄ where
  open fl use {f64}

  -- `for (int k = lo; k < hi; ++k) if (test) { …; break; }`, of n rounds from k on; the position k - lo of
  -- the hit.
  unfoldable pub scan : (ℤ → ℕ → Result Bool) → ℤ → ℕ → ℕ → Result (Option ℕ)
  scan test k at zero = ok none
  scan test k at (suc n) =
      let rest = scan test (k +ℤ pos 1) (suc at) n in
      test k at >>= λ hit. if hit then ok (some at) else rest

  -- The loop from lo to hi.
  unfoldable pub scan_range : (ℤ → ℕ → Result Bool) → ℤ → ℤ → Result (Option ℕ)
  unfolding scan
  scan_range test lo hi = scan test lo 0 (pos_part (hi -ℤ lo))

  -- nf: the number of inputs, or the columns of the only one
  unfoldable pub feature_total : ValueStore → List String → Result ℕ
  unfolding get_value
  feature_total vs (name ∷ []) = get_value vs name >>= λ t. ok t.n_cols
  feature_total vs ins = ok (length ins)

  -- The tensor and the column of feature f.
  unfoldable pub feature_source : ValueStore → List String → ℕ → Result (Tensor × ℕ)
  unfolding get_value
  feature_source vs (name ∷ []) f = get_value vs name >>= λ t. ok (t, f)
  feature_source vs ins f =
      defined (get_elem? ins f) >>= λ name. get_value vs name >>= λ t. ok (t, 0)

  -- The text of feature f in row r.
  unfoldable pub cell_text : ValueStore → List String → ℕ → ℕ → Result String
  unfolding feature_source str_at
  cell_text vs ins r f = feature_source vs ins f >>= λ (t, c). str_at t r c

  -- The number of feature f in row r.
  unfoldable pub cell_value : ValueStore → List String → ℕ → ℕ → Result F64
  unfolding feature_source get
  cell_value vs ins r f = feature_source vs ins f >>= λ (t, c). get t r c

  -- An offset of the table where it is stored, and a default otherwise.
  unfoldable pub offset_or : Option Tensor → ℕ → ℤ → Result ℤ
  unfolding numel get
  offset_or none f def = ok def
  offset_or (some t) f def =
      let stored = get t 0 f >>= λ x. ok (f64.to_int true 32 x) in
      if ltb f (numel t) then stored else ok def

  -- std::isnan
  abbrev pub is_nan : F64 → Bool
  is_nan x = not (f64.eq x x)

  -- `table->str_at(0, k) == x`
  unfoldable pub text_test : Tensor → String → ℤ → ℕ → Result Bool
  unfolding nat_index str_at
  text_test table x k at = nat_index k >>= λ i. str_at table 0 i >>= λ s. ok (same s x)

  -- A value that is no number stands for its position.
  unfoldable pub value_test : List F64 → F64 → ℤ → ℕ → Result Bool
  unfolding nat_index
  value_test table x k at = nat_index k >>= λ i. defined (get_elem? table i) >>= λ v.
      ok (f64.eq (if is_nan v then f64.of_int (pos at) else v) x)

  -- `table[k] == x`
  unfoldable pub exact_test : List F64 → F64 → ℤ → ℕ → Result Bool
  unfolding nat_index
  exact_test table x k at =
      nat_index k >>= λ i. defined (get_elem? table i) >>= λ v. ok (f64.eq v x)

  parsed : Option F64 → F64
  parsed none = f64.nan
  parsed (some x) = x

  -- The numbers of a table of categories. `parse` is std::stod, `none` where it throws.
  unfoldable pub table_values : (String → Option F64) → Tensor → Result (List F64)
  unfolding is_string str_at get numel parsed
  table_values parse t =
      if is_string t
      then tabulate (λ k. str_at t 0 k >>= λ s. ok (parsed (parse s))) 0 (numel t)
      else tabulate (get t 0) 0 (numel t)

  -- Whether the first input is of strings.
  unfoldable pub first_is_string : ValueStore → String → Result Bool
  unfolding get_value is_string
  first_is_string vs i = get_value vs i >>= λ t. ok (is_string t)

  -- numel(), and 0 without a tensor
  unfoldable pub total_of : Option Tensor → ℕ
  unfolding numel
  total_of none = 0
  total_of (some t) = numel t

  -- n_cats bounds the offsets.
  unfoldable pub category_range : Option Tensor → Option Tensor → ℕ → Result (ℤ × ℤ)
  unfolding numel offset_or min_ℤ total_of
  category_range cats off f =
      let n = pos (total_of cats) in
      let lo =
        (if ltb f (total_of off)
          then (offset_or off f n >>= λ a. ok (min_ℤ a n))
          else ok (pos 0)) in
      lo >>= λ lo. offset_or off (f + 1) n >>= λ hi. ok (lo, min_ℤ hi n)
