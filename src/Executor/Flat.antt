-- ===== src/Executor/Flat.antt =====
-- src/graph_executor.cpp: the predictions of a flat float32 matrix. `total_output_cols` is the field of
-- that name, and an output buffer is a list that the calls write to.
use omle_runtime.Prelude.{
  ℕ, zero, suc, ◌+◌, ◌-◌, ◌*◌, not, ◌&&◌, List, [], ◌∷◌, String, length, set, get_elem?,
  if◌then◌else◌, min, ltb, leb, str_append,
}
use omle_runtime.Prelude.Int.{pos}
use omle_runtime.Floats.{Floats, F32}
use omle_runtime.Status.{no_escape, Result, ok, throws, defined, tabulate, fold_range, ◌>>=◌}
use omle_runtime.Tensor.{
  float32, float64, float_cell, Tensor, is_sparse, same_dtype, at, f64_at, get,
}
use omle_runtime.Tensor.Build.{make_f32, with_elements}
use omle_runtime.ValueStore.{ValueStore, new_store, get_value, has_value, put}
use omle_runtime.Executor.{GraphExecutor, run_nodes}
use omle_runtime.Executor.Parallel.{thread_count, chunk_size}

module _ ⦃fl : Floats⦄ where
  open fl use {f32, narrow}

  -- output[i] = x
  unfoldable pub write_output : ℕ → F32 → List F32 → Result (List F32)
  write_output i x output = defined (get_elem? output i) >>= λ old. ok (set output i x)

  -- One column of the features as a tensor.
  unfoldable pub feature_column : List F32 → ℕ → ℕ → ℕ → ℕ → Result Tensor
  feature_column features nf row_start n_rows f =
      tabulate
        (λ r. defined (get_elem? features ((row_start + r) * nf + f)) >>= λ x. ok (float_cell x)) 0
        n_rows
      >>= λ cells. ok (with_elements (make_f32 n_rows 1 (f32.literal (pos 0) 0)) cells)

  -- The loop over the inputs, from input f on.
  unfoldable pub put_features :
      List F32 → ℕ → ℕ → ℕ → ℕ → List String → ValueStore → Result ValueStore
  unfolding feature_column put
  put_features features nf row_start n_rows f [] vs = ok vs
  put_features features nf row_start n_rows f (name ∷ names) vs = do
    col ← feature_column features nf row_start n_rows f
    put_features features nf row_start n_rows (suc f) names (put name col vs)

  -- An element of an output as a float.
  unfoldable pub float_at : Tensor → ℕ → ℕ → Result F32
  unfolding at f64_at get same_dtype is_sparse
  float_at t r c =
      if same_dtype t.dtype float64
      then (f64_at t r c >>= λ x. ok (narrow x))
      else if same_dtype t.dtype float32 && not (is_sparse t)
      then at t r c
      else (get t r c >>= λ x. ok (narrow x))

  module _ (total_output_cols : ℕ) where
    -- The rows of one output, from column col_off of the buffer on.
    unfoldable pub copy_output : Tensor → ℕ → ℕ → ℕ → List F32 → Result (List F32)
    unfolding float_at write_output
    copy_output t row_start n_rows col_off output =
        fold_range
          (λ r out.
            fold_range
              (λ c out. float_at t r c >>= λ x.
                write_output ((row_start + r) * total_output_cols + col_off + c) x out)
              0 t.n_cols out)
          0 n_rows output

    -- The loop over output_specs.
    unfoldable pub copy_outputs :
        List String → ValueStore → ℕ → ℕ → ℕ → List F32 → Result (List F32)
    unfolding has_value get_value copy_output
    copy_outputs [] vs row_start n_rows col_off output = ok output
    copy_outputs (name ∷ names) vs row_start n_rows col_off output =
        if has_value vs name
        then (get_value vs name >>= λ t.
            copy_output t row_start n_rows col_off output
            >>= copy_outputs names vs row_start n_rows (col_off + t.n_cols))
        else throws (str_append "graph: output '" (str_append name "' not produced"))

    -- GraphExecutor::predict_chunk
    unfoldable pub predict_chunk : GraphExecutor → List F32 → ℕ → ℕ → List F32 → Result (List F32)
    unfolding put_features run_nodes copy_outputs
    predict_chunk ex features row_start row_end output = do
      let n_rows = row_end - row_start
      loaded ←
          put_features features (length ex.input_names) row_start n_rows 0 ex.input_names
            (new_store ex.constants)
      vs ← run_nodes ex.nodes ex.user_functions loaded n_rows
      copy_outputs ex.output_names vs row_start n_rows 0 output

    -- GraphExecutor::predict_serial
    unfoldable pub predict_serial : GraphExecutor → List F32 → ℕ → List F32 → Result (List F32)
    unfolding predict_chunk
    predict_serial ex features n_samples output =
        if ltb 0 n_samples then predict_chunk ex features 0 n_samples output else ok output

    -- What parallel_for calls with task t.
    unfoldable pub flat_task : GraphExecutor → List F32 → ℕ → ℕ → ℕ → List F32 → Result (List F32)
    unfolding predict_chunk no_escape
    flat_task ex features n_samples chunk t output =
        let start = t * chunk in
        if leb n_samples start
        then ok output
        else no_escape (predict_chunk ex features start (min (start + chunk) n_samples) output)

    -- GraphExecutor::predict; the tasks write to rows of their own, here one after the other.
    unfoldable pub predict : GraphExecutor → List F32 → ℕ → List F32 → Result (List F32)
    unfolding predict_chunk flat_task chunk_size
    predict ex features zero output = ok output
    predict ex features (suc n) output =
        let n_threads = thread_count ex.pool_size in
        if ltb 1 n_threads && leb (n_threads * ex.min_parallel_rows) (suc n)
        then fold_range (flat_task ex features (suc n) (chunk_size (suc n) n_threads)) 0 n_threads
            output
        else predict_chunk ex features 0 (suc n) output
