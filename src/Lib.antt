-- ===== src/Lib.antt =====
-- omle-runtime loads a model, a graph of nodes, and runs it on batches of rows. A Session keeps bound
-- inputs and results and asks the GraphExecutor for a prediction; the executor cuts a large batch
-- into chunks for the threads of its ThreadPool, runs the graph on each in a ValueStore of its own,
-- and puts the parts together. The first node applies the model's schema to the features; nodes
-- evaluate expressions and predicates, and finish scores by a post-transform.
--
-- Where what is:
--   Floats         the floating-point numbers, a parameter; src/math_utils.h
--   Status         include/omle/status.h: a result is a value, an error, an exception, a call of
--                  std::terminate, or undefined where the source reads outside an object
--   Tensor         include/omle/tensor.h: DataType, Tensor and its accessors; Build has the factories
--                  and setters, Csr the loops over sparse storage, Convert the conversions, Search
--                  the proofs about the binary search in a sparse row
--   ValueStore     src/runtime_tensor.h: the scopes of named tensors; Slots gathers and scatters
--                  their columns
--   ThreadPool     src/thread_pool.h, src/thread_pool.cpp: each part of the code under the mutex is a
--                  function on the pool's state; Steps makes them a transition system, in which the
--                  threads move in any order
--   Ast            src/ast_types.h: expressions, predicates and attributes
--   Functions      src/expression_eval.cpp: fn_table; Special has the cases of eval_apply before it
--   Eval           src/expression_eval.cpp: eval_apply and eval_expr; the thread-local map of user
--                  functions is an argument
--   Predicates     src/expression_eval.cpp: eval_pred
--   PostTransform  src/post_transform.h: apply_post_transform at one floating-point type
--   Schema         src/model_schema.h, src/model_schema.cpp: apply_schema and, in Execute, the node
--   Executor       src/graph_executor.h, src/graph_executor.cpp: run_graph; Parallel has predict_named,
--                  and Chunks, Tables, Refine and Errors are about how it cuts a batch; Flat has the
--                  predictions of a flat matrix, and Frame is about what they write
--   Session        src/runtime.cpp, include/omle/runtime.h: Model::predict and Session
--   Ensemble       src/nodes/tree_ensemble_node.h, src/nodes/tree_ensemble_node.cpp: trees as arrays and
--                  the walks over them; Forest builds the node records, Walks are the walks over
--                  them, Batch takes all samples through a tree, Single one sample through all
--                  trees, General and Predict have predict_impl, and Node the node. Shapes has the trees
--                  that the arrays encode; the rest are proofs. The loops are those of a build without AVX2 and
--                  NEON, as MSVC makes it.
--   Nodes          src/nodes/composite_node.cpp, ohe_node.cpp, naive_bayes_node.cpp and linear_node.cpp:
--                  a node in a scope of its own, the one-hot encoder, naive Bayes and linear models; Dot has
--                  the sums of products of the linear models, in all builds
--   Operators      src/operator_registry.cpp, nodes/operator_node.cpp and src/width_dispatch.h: the names in
--                  the file, and Gathered, are what the operators share; Core, Columns, Choice, Reduce,
--                  Votes and Samme are the domain omle.core, Scalers, Binarizer, Transforms, Buckets,
--                  Lookup, Encoders, Target, Labels, OneHot, Powers, Splines, Discretizer, Indicators and
--                  Projections omle.feature, Strings, Murmur, Tokens, Text and Regex omle.text; Registry
--                  has the table and Builtin what is registered; the rest are proofs. An operator is a
--                  function of the names of its inputs and outputs, the attributes and the store.
--   Tests          examples, at the numbers of Floats.Toy
--
-- Numbers: sizes and indices are natural numbers without the bound of `int`. Floating-point numbers
-- are a record of operations (Floats.Float), about which a theorem assumes no more than it says.
-- A buffer is a list of cells, each known by the type at which it was written: a read at another type
-- is undefined.
--
-- Fuel: eval_expr takes as fuel how deep calls of user functions may nest, and Eval.Fuel says how much
-- is enough; the binary search of Tensor.get takes one round more than the row has entries. A
-- walk through a tree may visit one node more than the tree has, and a batch of walks has one round
-- more; the scans for the depth of a tree take their fuel as an argument.
--
-- Not modelled: the loader and its generated messages, the operators for factor analysis and nearest
-- neighbours (a parameter of Operators.Builtin, as std::stod is), the other model nodes (a
-- node is the function that its `execute` is), the vector branches of the other nodes and their
-- dispatch, which depend on the build, the C interface and the bindings of other languages.
pub mod Prelude
pub mod Floats
pub mod Status
pub mod Tensor
pub mod ValueStore
pub mod ThreadPool
pub mod Ast
pub mod Functions
pub mod Eval
pub mod Predicates
pub mod Schema
pub mod Executor
pub mod Session
pub mod PostTransform
pub mod Ensemble
pub mod Nodes
pub mod Operators
pub mod Tests
