-- ===== src/Executor/Frame.antt =====
-- src/graph_executor.cpp: which part of the output buffer predict_chunk leaves as it is.
use native.Mathlib.Nat.{add-mul}
use omle_runtime.Prelude.{
  ℕ, zero, suc, ◌+◌, ◌-◌, ◌*◌, ◌≡◌, refl, ◌∙◌, arith, inl, inr, Bool-cases, List, [], ◌∷◌, String,
  length, length-set, set, get_elem?, ◌<◌, ◌≤◌,
}
use omle_runtime.Floats.{Floats, F32}
use omle_runtime.Status.{ok, fold_range-keeps, defined, >>=-eq-ok, ok-injective}
use omle_runtime.Tensor.{Tensor}
use omle_runtime.ValueStore.{ValueStore, new_store, get_value, has_value}
use omle_runtime.Executor.{GraphExecutor, run_nodes}
use omle_runtime.Executor.Flat.{
  write_output, put_features, float_at, copy_output, copy_outputs, predict_chunk,
}

module _ {ℓ} {A : Type ℓ} where
  -- The buffer has its length, and the entries below k are what they were.
  pub record SameBelow (k : ℕ) (before after : List A) : Type ℓ where
    pub same_length : length after ≡ length before
    pub same_entry : (i : ℕ) → i < k → get_elem? after i ≡ get_elem? before i

  get_elem?-set :
      (xs : List A) (i j : ℕ) (v : A) → j < i → get_elem? (set xs i v) j ≡ get_elem? xs j
  get_elem?-set [] i j v h = refl
  get_elem?-set (x ∷ xs) zero j v h = absurd (omega arith)
  get_elem?-set (x ∷ xs) (suc i) zero v h = refl
  get_elem?-set (x ∷ xs) (suc i) (suc j) v h = get_elem?-set xs i j v (omega arith)

  set-SameBelow :
      (k i : ℕ) (before xs : List A) (v : A)
      → k ≤ i
      → SameBelow k before xs
      → SameBelow k before (set xs i v)
  set-SameBelow k i before xs v h s = record {
    same_length = length-set xs i v ∙ s.same_length;
    same_entry = λ j b. get_elem?-set xs i j v (omega arith) ∙ s.same_entry j b;
  }

module _ ⦃fl : Floats⦄ where
  write_output-SameBelow :
      (k i : ℕ) (x : F32) (before xs after : List F32)
      → k ≤ i
      → write_output i x xs ≡ ok after
      → SameBelow k before xs
      → SameBelow k before after
  unfolding write_output
  write_output-SameBelow k i x before xs after b h s =
      let (old, e, h') = >>=-eq-ok (defined (get_elem? xs i)) (λ old. ok (set xs i x)) h in
      rw (ok-injective h') at (set-SameBelow k i before xs x b s)

  module _ (total_output_cols : ℕ) (row_start : ℕ) (before : List F32) where
    abbrev Kept : List F32 → Type 0
    Kept = SameBelow (row_start * total_output_cols) before

    below :
        (r c off : ℕ)
        → row_start * total_output_cols ≤ (row_start + r) * total_output_cols + off + c
    below r c off = let z = add-mul row_start r total_output_cols in omega (arith, z)

    copy_output-Kept :
        (t : Tensor) (n_rows col_off : ℕ) (xs after : List F32)
        → copy_output total_output_cols t row_start n_rows col_off xs ≡ ok after
        → Kept xs
        → Kept after
    unfolding copy_output
    copy_output-Kept t n_rows col_off xs after h s =
        fold_range-keeps Kept _ 0 n_rows
          (λ r xs after e s.
            fold_range-keeps Kept _ 0 t.n_cols
              (λ c xs after e s.
                let (x, ex, e') = >>=-eq-ok (float_at t r c) _ e in
                write_output-SameBelow _ _ x before xs after (below r c col_off) e' s)
              e s)
          h s

    copy_outputs-Kept :
        (names : List String) (vs : ValueStore) (n_rows col_off : ℕ) (xs after : List F32)
        → copy_outputs total_output_cols names vs row_start n_rows col_off xs ≡ ok after
        → Kept xs
        → Kept after
    unfolding copy_outputs
    copy_outputs-Kept [] vs n_rows col_off xs after h s = rw (ok-injective h) at s
    copy_outputs-Kept (name ∷ names) vs n_rows col_off xs after h s =
        elim (Bool-cases (has_value vs name)) [
          | inr e ↦ let bad = rw e at h in absurd cc
          | inl e ↦
              let (t, et, h') = >>=-eq-ok (get_value vs name) _ (rw e at h) in
              let (mid, em, h'') =
                >>=-eq-ok (copy_output total_output_cols t row_start n_rows col_off xs) _ h' in
              copy_outputs-Kept names vs n_rows (col_off + t.n_cols) mid after h''
                (copy_output-Kept t n_rows col_off xs mid em s)
        ]

  -- A call of predict_chunk that returns leaves the output buffer at its length, and leaves all
  -- rows before its first row as they were, whatever the nodes and the widths of their outputs
  -- are.
  pub predict_chunk-SameBelow :
      (total_output_cols : ℕ) (ex : GraphExecutor) (features : List F32) (row_start row_end : ℕ)
      (output after : List F32)
      → predict_chunk total_output_cols ex features row_start row_end output ≡ ok after
      → SameBelow (row_start * total_output_cols) output after
  unfolding predict_chunk
  predict_chunk-SameBelow cols ex features row_start row_end output after h =
      let n_rows = row_end - row_start in
      let (loaded, el, h') =
        >>=-eq-ok
          (put_features features (length ex.input_names) row_start n_rows 0 ex.input_names
            (new_store ex.constants))
          _ h in
      let (vs, ev, h'') = >>=-eq-ok (run_nodes ex.nodes ex.user_functions loaded n_rows) _ h' in
      copy_outputs-Kept cols row_start output ex.output_names vs n_rows 0 output after h''
        (record { same_length = refl; same_entry = λ i b. refl })
