-- ===== src/Executor/Errors.antt =====
-- src/graph_executor.cpp: what an exception in run_graph is, on the calling thread and in a worker.
use omle_runtime.Prelude.{
  ℕ, zero, suc, ◌*◌, ◌<◌, ◌≡◌, refl, ap, ◌∙◌, arith, Bool, true, false, Bool-cases, Option, none,
  List, ◌∷◌, String, str_append, leb, ltb, ◌==◌, ◌||◌, if◌then◌else◌, not, Map, lookup, min, ◌+◌,
  inl, inr,
}
use omle_runtime.Floats.{Floats}
use omle_runtime.Status.{Result, throws, terminates, tabulate}
use omle_runtime.Tensor.{Tensor}
use omle_runtime.ValueStore.{ValueStore, new_store}
use omle_runtime.Executor.{GraphExecutor, run_graph, load_inputs, put_inputs}
use omle_runtime.Executor.Parallel.{
  thread_count, chunk_size, in_worker, task, predict_rows, predict_named,
}

abbrev pub missing_text : String → String
missing_text name = str_append "predict: missing input '" (str_append name "'")

if-not {ℓ} : {A : Type ℓ} (x y : A) (b : Bool) → (if b then x else y) ≡ (if not b then y else x)
if-not x y true = refl
if-not x y false = refl

module _ ⦃fl : Floats⦄ where
  put_inputs-missing :
      (inputs : Map Tensor) (a b : ℕ) (name : String) (names : List String)
      → lookup name inputs ≡ none
      → (vs : ValueStore) → put_inputs inputs a b (name ∷ names) vs ≡ throws (missing_text name)
  unfolding put_inputs
  put_inputs-missing inputs a b name names h vs = rw (put_inputs, h)

  first_task_throws :
      (run : ℕ → ℕ → Result (Map Tensor)) (w : String) (n c T : ℕ)
      → ((a b : ℕ) → run a b ≡ throws w)
      → 0 < n
      → 0 < T
      → tabulate (task run n c) 0 T ≡ terminates
  unfolding task in_worker
  first_task_throws run w n c zero h b p = absurd (omega arith)
  first_task_throws run w n c (suc T) h b p =
      let e : leb n (0 * c) ≡ false = ground arith in rw (e, h (0 * c) (min (0 * c + c) n))

  -- Is the batch cut into chunks?
  abbrev pub is_cut : GraphExecutor → ℕ → Bool
  is_cut ex n =
      let T = thread_count ex.pool_size in not (leb T 1 || ltb n (T * ex.min_parallel_rows))

  predict_rows-throws :
      (run : ℕ → ℕ → Result (Map Tensor)) (w : String) (pool : Option ℕ) (m n : ℕ)
      → ((a b : ℕ) → run a b ≡ throws w)
      → 0 < n
      → predict_rows run pool m n ≡ (
          if leb (thread_count pool) 1 || ltb n (thread_count pool * m)
          then throws w
          else terminates)
  unfolding predict_rows
  predict_rows-throws run w pool m n h b =
      let T = thread_count pool in
      elim (Bool-cases (leb T 1 || ltb n (T * m))) [
        | inl e ↦ rw (e, h 0 n)
        | inr e ↦ rw (e, first_task_throws run w n (chunk_size n T) T h b (ground arith))
      ]

  run_graph-missing :
      (ex : GraphExecutor) (k j : String) (t u : Tensor) (rest : Map Tensor) (filter : List String)
      (name : String) (names : List String) (a b : ℕ)
      → ex.input_names ≡ name ∷ names
      → lookup name ((k, t) ∷ (j, u) ∷ rest) ≡ none
      → run_graph ex ((k, t) ∷ (j, u) ∷ rest) filter a b ≡ throws (missing_text name)
  unfolding run_graph load_inputs
  run_graph-missing ex k j t u rest filter name names a b hn h =
      let inputs = (k, t) ∷ (j, u) ∷ rest in
      let e =
        ap (λ ns. put_inputs inputs a b ns (new_store ex.constants)) hn
        ∙ put_inputs-missing inputs a b name names h (new_store ex.constants) in
      rw e

  -- With two or more inputs, rows in the first, and the first input name of the graph not among
  -- them, predict_named throws the message that names it where the batch is not cut, and
  -- terminates the process where it is.
  pub missing_input :
      (ex : GraphExecutor) (k j : String) (t u : Tensor) (rest : Map Tensor) (filter : List String)
      (name : String) (names : List String)
      → ex.input_names ≡ name ∷ names
      → lookup name ((k, t) ∷ (j, u) ∷ rest) ≡ none
      → 0 < t.n_rows
      → predict_named ex ((k, t) ∷ (j, u) ∷ rest) filter
        ≡ (if is_cut ex t.n_rows then terminates else throws (missing_text name))
  unfolding predict_named
  missing_input ex k j t u rest filter name names hn h b =
      let inputs = (k, t) ∷ (j, u) ∷ rest in
      let e : (t.n_rows == 0) ≡ false = ground arith in
      let run = run_graph ex inputs filter in
      let all = λ (a b : ℕ). run_graph-missing ex k j t u rest filter name names a b hn h in
      let T = thread_count ex.pool_size in
      rw e (
        predict_rows-throws run (missing_text name) ex.pool_size ex.min_parallel_rows t.n_rows all b
        ∙ if-not (throws (missing_text name)) terminates
            (leb T 1 || ltb t.n_rows (T * ex.min_parallel_rows)))
