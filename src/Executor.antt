-- ===== src/Executor.antt =====
-- src/graph_executor.h, src/graph_executor.cpp: one run of the graph on a range of rows.
pub mod Parallel
pub mod Flat
pub mod Frame
pub mod Chunks
pub mod Tables
pub mod Refine
pub mod Errors
use mathlib.Core.List.{flatten}
use omle_runtime.Prelude.{
  ℕ, zero, suc, ◌+◌, ◌-◌, ◌*◌, ◌≡◌, Bool, true, false, not, ◌&&◌, ◌||◌, Option, none, some, List,
  [], ◌∷◌, String, str_append, map, length, drop, ltb, ◌==◌, if◌then◌else◌, Map, lookup, insert,
  has_key, mem_name, min,
}
use omle_runtime.Prelude.Int.{pos}
use omle_runtime.Floats.{Floats, F32, F64}
use omle_runtime.Status.{
  Payload, Result, ok, error, throws, terminates, undefined, defined, tabulate, map_result, ◌>>=◌,
}
use omle_runtime.Tensor.{
  Tensor, float32, float64, Cell, float_cell, double_cell, is_sparse, is_string, is_view,
  same_dtype, elements, at, f64_at, str_at,
}
use omle_runtime.Tensor.Build.{make_f32, make_dense, strings, with_elements}
use omle_runtime.Tensor.Convert.{to_float32, first_cells}
use omle_runtime.ValueStore.{ConstantStore, ValueStore, new_store, get_value, has_value, put}
use omle_runtime.Eval.{UserFunctionMap}

module _ ⦃fl : Floats⦄ where
  open fl use {f32}

  -- GraphNode, by its `execute`: on the active user functions and the store that it changes.
  abbrev pub GraphNode : Type 0
  GraphNode = UserFunctionMap → ValueStore → ℕ → Result ValueStore

  -- GraphExecutor; of `output_specs` the names, and of `thread_pool` its size.
  pub record GraphExecutor : Type 0 where
    pub input_names : List String
    pub output_names : List String
    pub nodes : List GraphNode
    pub constants : ConstantStore
    pub user_functions : UserFunctionMap
    pub pool_size : Option ℕ
    pub min_parallel_rows : ℕ

  -- An error of a node is thrown as an exception with its message.
  abbrev pub or_throw {ℓ} : {A : Type ℓ} → Result A → Result A
  or_throw (error e) = throws e.message
  or_throw r = r

  -- for (const auto& node : nodes)
  unfoldable pub run_nodes : List GraphNode → UserFunctionMap → ValueStore → ℕ → Result ValueStore
  run_nodes [] fns vs n = ok vs
  run_nodes (node ∷ nodes) fns vs n = or_throw (node fns vs n) >>= λ vs'. run_nodes nodes fns vs' n

  abbrev keep_f64 : Tensor → Bool
  keep_f64 src = same_dtype src.dtype float64 && not (is_sparse src)

  -- src, or src.to_float32()
  unfoldable pub as_floats : Tensor → Result Tensor
  as_floats src =
      if keep_f64 src
      then ok src
      else if not (same_dtype src.dtype float32) || is_sparse src
      then to_float32 src
      else ok src

  abbrev new_f32 : ℕ → ℕ → List Cell → Tensor
  new_f32 rows cols cells = with_elements (make_f32 rows cols (f32.literal (pos 0) 0)) cells

  abbrev new_f64 : ℕ → ℕ → List Cell → Tensor
  new_f64 rows cols cells = with_elements (make_dense float64 rows cols) cells

  -- One column of the flat tensor, as the slot of input f.
  unfoldable pub split_column : Bool → Tensor → ℕ → ℕ → ℕ → Result Tensor
  split_column true flat row_start n f =
      tabulate (λ r. f64_at flat (row_start + r) f >>= λ x. ok (double_cell x)) 0 n >>= λ cs.
      ok (new_f64 n 1 cs)
  split_column false flat row_start n f =
      tabulate (λ r. at flat (row_start + r) f >>= λ x. ok (float_cell x)) 0 n >>= λ cs.
      ok (new_f32 n 1 cs)

  -- The first branch of run_graph: a single flat tensor is cut into the named slots.
  unfoldable pub put_columns :
      Bool → Tensor → ℕ → ℕ → ℕ → List String → ValueStore → Result ValueStore
  put_columns wide flat row_start n f [] vs = ok vs
  put_columns wide flat row_start n f (name ∷ names) vs =
      split_column wide flat row_start n f >>= λ col.
      put_columns wide flat row_start n (suc f) names (put name col vs)

  -- Rows of a string tensor.
  unfoldable pub slice_strings : Tensor → ℕ → ℕ → Result Tensor
  slice_strings src row_start n =
      tabulate (λ r. tabulate (λ c. str_at src (row_start + r) c) 0 src.n_cols) 0 n >>= λ rs.
      ok (strings n src.n_cols (flatten rs))

  -- Rows of a dense numeric tensor, copied as they are.
  unfoldable pub slice_rows : Bool → Tensor → ℕ → ℕ → Result Tensor
  slice_rows wide t row_start n =
      first_cells (n * t.n_cols) (drop (row_start * t.n_cols) (elements t)) >>= λ cs.
      ok (if wide then new_f64 n t.n_cols cs else new_f32 n t.n_cols cs)

  -- One named input in the rows from row_start to row_end.
  unfoldable pub input_rows : Tensor → ℕ → ℕ → Result Tensor
  input_rows src row_start row_end =
      if is_string src
      then (if row_start == 0 && row_end == src.n_rows
          then ok src
          else slice_strings src row_start (row_end - row_start))
      else (as_floats src >>= λ t.
          if (row_start == 0 && row_end == t.n_rows) && not (is_view t)
          then ok t
          else slice_rows (keep_f64 src) t row_start (row_end - row_start))

  -- The second branch of run_graph: every input by its name.
  unfoldable pub put_inputs : Map Tensor → ℕ → ℕ → List String → ValueStore → Result ValueStore
  put_inputs inputs row_start row_end [] vs = ok vs
  put_inputs inputs row_start row_end (name ∷ names) vs = elim (lookup name inputs) [
    | none ↦ throws (str_append "predict: missing input '" (str_append name "'"))
    | some src ↦ input_rows src row_start row_end >>= λ t.
        put_inputs inputs row_start row_end names (put name t vs)
  ]

  slots_present : List String → Map Tensor → Bool
  slots_present [] inputs = true
  slots_present (name ∷ names) inputs = has_key name inputs

  -- The part of run_graph before the nodes.
  unfoldable pub load_inputs : List String → Map Tensor → ℕ → ℕ → ValueStore → Result ValueStore
  unfolding slots_present
  load_inputs names ((k, src) ∷ []) row_start row_end vs =
      if slots_present names ((k, src) ∷ [])
      then put_inputs ((k, src) ∷ []) row_start row_end names vs
      else (as_floats src >>= λ flat.
          put_columns (keep_f64 src) flat row_start (row_end - row_start) 0 names vs)
  load_inputs names inputs row_start row_end vs = put_inputs inputs row_start row_end names vs

  abbrev is_wanted : List String → String → Bool
  is_wanted [] name = true
  is_wanted (k ∷ ks) name = mem_name name (k ∷ ks)

  -- The loop over output_specs.
  unfoldable pub collect : List String → List String → ValueStore → Map Tensor → Result (Map Tensor)
  collect [] filter vs result = ok result
  collect (name ∷ names) filter vs result =
      if is_wanted filter name
      then (if has_value vs name
          then (get_value vs name >>= λ t. collect names filter vs (insert name t result))
          else throws (str_append "predict: output '" (str_append name "' not produced")))
      else collect names filter vs result

  -- run_graph
  unfoldable pub run_graph : GraphExecutor → Map Tensor → List String → ℕ → ℕ → Result (Map Tensor)
  run_graph ex inputs filter row_start row_end = do
    loaded ← load_inputs ex.input_names inputs row_start row_end (new_store ex.constants)
    vs ← run_nodes ex.nodes ex.user_functions loaded (row_end - row_start)
    collect ex.output_names filter vs []
