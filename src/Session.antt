-- ===== src/Session.antt =====
-- src/runtime.cpp, include/omle/runtime.h: Model::predict and Session.
pub mod Runs
use omle_runtime.Prelude.{
  ℕ, zero, suc, ◌≡◌, Bool, true, false, Option, none, some, List, [], ◌∷◌, String, str_append,
  if◌then◌else◌, Map, lookup, insert, keys,
}
use omle_runtime.Prelude.Int.{ℤ, pos, pos_part, ltb_ℤ, ◌+ℤ◌, ◌*ℤ◌}
use omle_runtime.Floats.{Floats}
use omle_runtime.Status.{
  Payload, Result, ok, error, throws, terminates, undefined, fail, invalid_graph, output_not_found,
}
use omle_runtime.Tensor.{Tensor}
use omle_runtime.Executor.{GraphExecutor}
use omle_runtime.Executor.Parallel.{predict_named, predict_named_serial}
use omle_runtime.Operators.{wrap32}

-- catch (...) { return status_from_current_exception(); }
unfoldable pub caught {ℓ} : {A : Type ℓ} → Result A → Result A
caught (throws w) = fail invalid_graph w
caught r = r

-- InputSpec and OutputSpec, by what num_inputs and num_outputs read: the shape, of int64 numbers, a
-- leading batch dimension first. A dimension that is not known is -1.
abbrev pub Shape : Type 0
Shape = List ℤ

-- the product of the dimensions after the first, each as an int
unfoldable pub slots : Shape → ℤ
unfolding wrap32
slots [] = pos 1
slots (d ∷ ds) = product (pos 1) ds
  where
    product : ℤ → List ℤ → ℤ
    product total [] = total
    product total (e ∷ es) = product (total *ℤ wrap32 e) es

total_slots : ℤ → List Shape → ℤ
total_slots total [] = total
total_slots total (s ∷ ss) = total_slots (total +ℤ slots s) ss

-- compute_num_inputs, compute_num_outputs: with the executor's own number
unfoldable pub compute_num : ℕ → List Shape → ℕ
unfolding total_slots
compute_num own specs =
    let total = total_slots (pos 0) specs in if ltb_ℤ (pos 0) total then pos_part total else own

module _ ⦃fl : Floats⦄ where
  -- Model::predict, the overload that returns the outputs
  unfoldable pub model_predict : GraphExecutor → Map Tensor → List String → Result (Map Tensor)
  model_predict ex inputs filter = caught (predict_named ex inputs filter)

  -- for (auto& [k, v] : from) into.insert_or_assign(k, v)
  unfoldable pub assign_all : Map Tensor → Map Tensor → Map Tensor
  assign_all [] into = into
  assign_all ((k, v) ∷ from) into = assign_all from (insert k v into)

  abbrev assigned : Result (Map Tensor) → Map Tensor → Result (Unit {0}) × Map Tensor
  assigned (ok result) outputs = (ok tt, assign_all result outputs)
  assigned (error e) outputs = (error e, outputs)
  assigned (throws w) outputs = (throws w, outputs)
  assigned terminates outputs = (terminates, outputs)
  assigned undefined outputs = (undefined, outputs)

  -- Model::predict, the overload that writes into `outputs`
  unfoldable pub model_predict_into :
      GraphExecutor → Map Tensor → Map Tensor → Result (Unit {0}) × Map Tensor
  model_predict_into ex inputs outputs =
      assigned (caught (predict_named ex inputs (keys outputs))) outputs

  -- Session::Impl
  pub record Session : Type 0 where
    pub model : GraphExecutor
    pub bound_inputs : Map Tensor
    pub bound_outputs : Map Tensor
    pub last_results : Map Tensor

  -- Model::create_session
  unfoldable pub create_session : GraphExecutor → Session
  create_session ex = record {
    model = ex;
    bound_inputs = [];
    bound_outputs = [];
    last_results = [];
  }

  -- Session::bind_input
  unfoldable pub bind_input : String → Tensor → Session → Session
  bind_input name t s = record s { bound_inputs = insert name t s.bound_inputs }

  -- Session::bind_output
  unfoldable pub bind_output : String → Tensor → Session → Session
  bind_output name t s = record s { bound_outputs = insert name t s.bound_outputs }

  -- Session::clear_inputs
  unfoldable pub clear_inputs : Session → Session
  clear_inputs s = record s { bound_inputs = [] }

  -- Session::clear_outputs
  unfoldable pub clear_outputs : Session → Session
  clear_outputs s = record s { bound_outputs = [] }

  -- What a run leaves in the session: an exception is thrown before `last_results` is cleared.
  abbrev stored : Result (Map Tensor) → Session → Result (Unit {0}) × Session
  stored (ok fresh) s = (ok tt, record s { last_results = assign_all fresh [] })
  stored (error e) s = (error e, s)
  stored (throws w) s = (throws w, s)
  stored terminates s = (terminates, s)
  stored undefined s = (undefined, s)

  -- Session::run_with_inputs
  unfoldable pub run_with_inputs : Map Tensor → Session → Result (Unit {0}) × Session
  run_with_inputs inputs s =
      stored (caught (predict_named_serial s.model inputs (keys s.bound_outputs))) s

  -- Session::run
  unfoldable pub run : Session → Result (Unit {0}) × Session
  run s = stored (caught (predict_named_serial s.model s.bound_inputs (keys s.bound_outputs))) s

  unfoldable pub found_output : String → Option Tensor → Result Tensor
  found_output name (some t) = ok t
  found_output name none =
      fail output_not_found
        (str_append "omle: output '" (str_append name "' not found in last run results"))

  -- Session::get_output
  unfoldable pub get_output : Session → String → Result Tensor
  unfolding found_output
  get_output s name = found_output name (lookup name s.last_results)

  -- Session::take_results
  unfoldable pub take_results : Session → Map Tensor × Session
  take_results s = (s.last_results, record s { last_results = [] })
