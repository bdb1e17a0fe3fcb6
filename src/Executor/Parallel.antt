-- ===== src/Executor/Parallel.antt =====
-- src/graph_executor.cpp: predict_named, which cuts a batch into chunks for the threads of the pool.
use omle_runtime.Prelude.{
  ℕ, ◌+◌, ◌-◌, ◌*◌, ◌/◌, Bool, true, false, ◌||◌, Option, none, some, List, [], ◌∷◌, ◌++◌, String,
  map, ltb, leb, ◌==◌, if◌then◌else◌, Map, lookup, insert, min,
}
use omle_runtime.Floats.{Floats}
use omle_runtime.Status.{Result, ok, throws, terminates, undefined, tabulate, ◌>>=◌}
use omle_runtime.Tensor.{Tensor, DataType, float32, float64, Cell, same_dtype, elements}
use omle_runtime.Tensor.Build.{empty_tensor, make_dense, with_elements}
use omle_runtime.Tensor.Convert.{first_cells}
use omle_runtime.Executor.{GraphExecutor, run_graph}

-- thread_pool ? thread_pool->size() : 1
abbrev pub thread_count : Option ℕ → ℕ
thread_count none = 1
thread_count (some n) = n

-- (n_rows + n_threads - 1) / n_threads
unfoldable pub chunk_size : ℕ → ℕ → ℕ
chunk_size n_rows n_threads = (n_rows + n_threads - 1) / n_threads

module _ ⦃fl : Floats⦄ where
  -- The rows of one part, as memcpy reads them: the data type and n_cols are those of the first
  -- part, and a part of another type has no such elements, which matters where one is read.
  unfoldable pub part_cells : DataType → ℕ → Tensor → Result (List Cell)
  part_cells dt n_cols p =
      if same_dtype p.dtype dt || p.n_rows * n_cols == 0
      then first_cells (p.n_rows * n_cols) (elements p)
      else undefined

  unfoldable pub concat_parts : DataType → ℕ → List Tensor → Result (List Cell)
  concat_parts dt n_cols [] = ok []
  concat_parts dt n_cols (p ∷ ps) =
      part_cells dt n_cols p >>= λ c. concat_parts dt n_cols ps >>= λ cs. ok (c ++ cs)

  abbrev pub total_rows : List Tensor → ℕ
  total_rows [] = 0
  total_rows (p ∷ ps) = p.n_rows + total_rows ps

  -- f32_ptr and f64_ptr are for their own data types alone.
  abbrev pub is_float_dtype : DataType → Bool
  is_float_dtype dt = same_dtype dt float64 || same_dtype dt float32

  -- vcat_tensors
  unfoldable pub vcat_tensors : List Tensor → Result Tensor
  vcat_tensors [] = undefined
  vcat_tensors (p ∷ ps) =
      if is_float_dtype p.dtype
      then (concat_parts p.dtype p.n_cols (p ∷ ps) >>= λ cs.
          ok (with_elements (make_dense p.dtype (total_rows (p ∷ ps)) p.n_cols) cs))
      else undefined

  -- parts[t][name], which makes an empty tensor where there is none
  unfoldable pub part_of : String → Map Tensor → Tensor
  part_of name part = elim (lookup name part) [ none ↦ empty_tensor | some t ↦ t ]

  -- The loop over the names of the first part.
  unfoldable pub merge_names : Map Tensor → List (Map Tensor) → Map Tensor → Result (Map Tensor)
  merge_names [] parts result = ok result
  merge_names ((name, t) ∷ names) parts result =
      vcat_tensors (map (part_of name) parts) >>= λ whole.
      merge_names names parts (insert name whole result)

  abbrev is_nonempty : Map Tensor → Bool
  is_nonempty [] = false
  is_nonempty (e ∷ es) = true

  -- The parts that are not empty, in the order of the tasks.
  unfoldable pub valid_parts : List (Map Tensor) → List (Map Tensor)
  valid_parts [] = []
  valid_parts (p ∷ ps) = if is_nonempty p then p ∷ valid_parts ps else valid_parts ps

  unfoldable pub merge_parts : List (Map Tensor) → Result (Map Tensor)
  merge_parts [] = ok []
  merge_parts (p ∷ []) = ok p
  merge_parts (p ∷ q ∷ ps) = merge_names p (p ∷ q ∷ ps) []

  -- An exception that leaves the function of a worker thread ends the process.
  unfoldable pub in_worker : Result (Map Tensor) → Result (Map Tensor)
  in_worker (throws w) = terminates
  in_worker r = r

  -- The function that parallel_for calls with task t, for a run on the rows from `start` to `end`.
  unfoldable pub task : (ℕ → ℕ → Result (Map Tensor)) → ℕ → ℕ → ℕ → Result (Map Tensor)
  task run n_rows chunk t =
      let start = t * chunk in
      if leb n_rows start then ok [] else in_worker (run start (min (start + chunk) n_rows))

  -- predict_named, from the number of rows on
  unfoldable pub predict_rows :
      (ℕ → ℕ → Result (Map Tensor)) → Option ℕ → ℕ → ℕ → Result (Map Tensor)
  predict_rows run pool min_rows n_rows =
      let n_threads = thread_count pool in
      if leb n_threads 1 || ltb n_rows (n_threads * min_rows)
      then run 0 n_rows
      else (tabulate (task run n_rows (chunk_size n_rows n_threads)) 0 n_threads >>= λ parts.
          merge_parts (valid_parts parts))

  -- GraphExecutor::predict_named
  unfoldable pub predict_named : GraphExecutor → Map Tensor → List String → Result (Map Tensor)
  predict_named ex [] filter = ok []
  predict_named ex ((k, t) ∷ inputs) filter =
      if t.n_rows == 0
      then ok []
      else predict_rows (run_graph ex ((k, t) ∷ inputs) filter) ex.pool_size ex.min_parallel_rows
          t.n_rows

  -- GraphExecutor::predict_named_serial
  unfoldable pub predict_named_serial :
      GraphExecutor → Map Tensor → List String → Result (Map Tensor)
  predict_named_serial ex inputs filter = predict_named ex inputs filter
