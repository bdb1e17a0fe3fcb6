-- ===== src/Tests/Tables.antt =====
-- Examples for the executor, the sessions and the value store: a table of three numbers.
use omle_runtime.Prelude.{
  ℕ, All, ◌-◌, ◌*◌, ◌<◌, ◌≡◌, refl, Option, none, some, List, [], ◌∷◌, String, Map, arith, ◌==◌,
  if◌then◌else◌, lookup, insert, has_key, mem_name,
}
use omle_runtime.Prelude.Int.{pos}
use omle_runtime.Floats.Toy.{toy, finite}
use omle_runtime.Status.{Result, ok, terminates}
use omle_runtime.Tensor.{
  Tensor, is_string, is_sparse, is_view, same_dtype, dtype_number, float32, Cell, float_cell,
}
use omle_runtime.Tensor.Build.{make_f32, make_dense, with_elements, from_floats}
use omle_runtime.ValueStore.{ValueStore, new_store, has_value, put, get_value, get_value-put}
use omle_runtime.Executor.{
  GraphNode, GraphExecutor, run_graph, load_inputs, put_inputs, input_rows, as_floats, run_nodes,
  collect,
}
use omle_runtime.Executor.Parallel.{chunk_size, task, predict_rows, predict_named}
use omle_runtime.Executor.Chunks.{sees, seen, one_task}
use omle_runtime.Executor.Tables.{cells, IsTable, make_dense-IsTable}
use omle_runtime.Executor.Refine.{RowWise, predict_rows-IsTable}
use omle_runtime.Executor.Errors.{missing_input}
use omle_runtime.Executor.Flat.{predict_chunk}
use omle_runtime.Executor.Frame.{SameBelow, predict_chunk-SameBelow}
use omle_runtime.Nodes.Composite.{
  CompositeNode, execute_composite, execute_composite-kept, execute_composite-isolated,
}
use omle_runtime.Session.{Session, create_session, run, get_output, found_output}
use omle_runtime.Session.Runs.{get_output-run}

one_task_example :
    (t : ℕ) × (t < 4)
    × ((s : ℕ) → task (sees 7) 10 (chunk_size 10 4) s ≡ ok (if s == t then seen else []))
one_task_example = one_task 10 4 7 (omega arith) (omega arith)

abbrev row : ℕ → List (Cell)
row r = float_cell (finite (pos r)) ∷ []

abbrev part : ℕ → ℕ → Tensor
part a b = with_elements (make_dense float32 (b - a) 1) (cells float32 1 row a (b - a))

abbrev run_part : ℕ → ℕ → Result (Map (Tensor))
run_part a b = ok (("y", part a b) ∷ [])

run_part-RowWise : RowWise float32 1 row "y" run_part part 3
run_part-RowWise a b h k = (refl, make_dense-IsTable float32 1 row a (b - a) (λ r. refl))

predict_rows-IsTable_example :
    (t : Tensor) × (predict_rows run_part (some 2) 1 3 ≡ ok (("y", t) ∷ []))
    × IsTable float32 1 row 0 3 t
unfolding same_dtype
predict_rows-IsTable_example =
    predict_rows-IsTable float32 1 row "y" run_part part (some 2) 1 3 run_part-RowWise (omega arith)
      refl (λ r. refl)

abbrev numbers : Tensor
numbers = from_floats 3 1 (finite (pos 1) ∷ finite (pos 2) ∷ finite (pos 3) ∷ [])

get_value-put_example :
    get_value (put "x" numbers (new_store [])) "z" ≡ get_value (new_store []) "z"
unfolding lookup
get_value-put_example = get_value-put "x" "z" numbers (new_store [])

-- A graph with no nodes, on a pool of the given size.
abbrev passes : Option ℕ → List String → List String → GraphExecutor
passes pool ins outs = record {
  input_names = ins;
  output_names = outs;
  nodes = [];
  constants = [];
  user_functions = [];
  pool_size = pool;
  min_parallel_rows = 1;
}

missing_input_example :
    predict_named (passes (some 2) ("z" ∷ []) []) (("x", numbers) ∷ ("y", numbers) ∷ []) []
    ≡ terminates
unfolding lookup from_floats
missing_input_example =
    missing_input (passes (some 2) ("z" ∷ []) []) "x" "y" numbers numbers [] [] "z" [] refl refl
      (omega arith)

-- Sessions with `numbers` bound.
abbrev lacks_input : Session
lacks_input = record (create_session (passes none ("z" ∷ []) [])) {
  bound_inputs = ("x", numbers) ∷ ("y", numbers) ∷ [];
}

abbrev has_input : Session
has_input = record (create_session (passes none ("x" ∷ []) ("x" ∷ []))) {
  bound_inputs = ("x", numbers) ∷ [];
}

has_input-runs : predict_named has_input.model has_input.bound_inputs [] ≡ ok (("x", numbers) ∷ [])
unfolding create_session from_floats predict_named predict_rows run_graph load_inputs put_inputs
    input_rows has_key lookup insert is_string as_floats is_sparse same_dtype is_view run_nodes
    collect has_value get_value put dtype_number
has_input-runs = refl

get_output-run_example : get_output (run has_input).1 "x" ≡ found_output "x" (some numbers)
unfolding lookup create_session
get_output-run_example =
    get_output-run has_input (("x", numbers) ∷ []) "x" has_input-runs (refl, tt)

-- The column of the input is the column of the output.
abbrev echo : GraphExecutor
echo = passes none ("x" ∷ []) ("x" ∷ [])

predict_chunk-SameBelow_example :
    SameBelow
      (1 * 1)
      (finite (pos 7) ∷ finite (pos 7) ∷ finite (pos 7) ∷ [])
      (finite (pos 7) ∷ finite (pos 2) ∷ finite (pos 3) ∷ [])
unfolding predict_chunk with_elements make_f32
predict_chunk-SameBelow_example =
    predict_chunk-SameBelow 1 echo (finite (pos 1) ∷ finite (pos 2) ∷ finite (pos 3) ∷ []) 1 3
      (finite (pos 7) ∷ finite (pos 7) ∷ finite (pos 7) ∷ [])
      (finite (pos 7) ∷ finite (pos 2) ∷ finite (pos 3) ∷ []) refl

-- Inside, "x" is changed and "y" is made; only "y" comes out.
abbrev inner : GraphNode
inner fns vs n = ok (put "y" numbers (put "x" (from_floats 1 1 (finite (pos 9) ∷ [])) vs))

abbrev boxed : CompositeNode
boxed = record {
  in_names = "x" ∷ [];
  out_names = "y" ∷ [];
  input_aliases = [];
  nodes = inner ∷ [];
  output_aliases = [];
}

abbrev with_x : ValueStore
with_x = put "x" numbers (new_store [])

execute_composite-kept_example : get_value (put "y" numbers with_x) "x" ≡ get_value with_x "x"
unfolding execute_composite lookup insert put mem_name
execute_composite-kept_example =
    execute_composite-kept boxed [] with_x (put "y" numbers with_x) 3 "x" refl refl

execute_composite-isolated_example :
    (after' : ValueStore) × (execute_composite boxed [] (put "z" numbers with_x) 3 ≡ ok after')
    × All (λ n. get_value (put "y" numbers with_x) n ≡ get_value after' n) ("y" ∷ [])
unfolding execute_composite lookup insert put
execute_composite-isolated_example =
    execute_composite-isolated boxed [] with_x (put "z" numbers with_x) (put "y" numbers with_x) 3
      refl (refl, tt) refl
