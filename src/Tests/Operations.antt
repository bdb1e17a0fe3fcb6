-- ===== src/Tests/Operations.antt =====
-- Examples for the operators, at the numbers of Floats.Toy.
use mathlib.Core.List.{flatten}
use omle_runtime.Prelude.{
  ℕ, zero, suc, ◌⊎◌, All, ◌+◌, ◌*◌, ◌<◌, arith, ◌≤◌, ◌≡◌, refl, Bool, true, false, List, [], ◌∷◌,
  ◌↔◌, String, length, same, if◌then◌else◌, lookup, insert, has_key,
}
use omle_runtime.Prelude.Int.{ℤ, pos, leb_ℤ}
use omle_runtime.Floats.{F32, F64}
use omle_runtime.Floats.Toy.{toy, finite}
use omle_runtime.Status.{ok, fold_list, fail, unknown_operator}
use omle_runtime.Tensor.{
  Tensor, Cell, double_cell, read_f64, float32, float64, get, read_elem, storage_of, raw_bytes,
  same_dtype, numel, read_f32,
}
use omle_runtime.Tensor.Build.{make_f32, with_elements, from_floats}
use omle_runtime.Tensor.Convert.{first_cells}
use omle_runtime.ValueStore.{ValueStore, new_store, put, get_value, has_value}
use omle_runtime.Operators.{
  Operator, any_f64, out_rows, out_cells, out_buf, out_cell, owned_elements, wants_f64,
}
use omle_runtime.Operators.Gathered.{entry_of, update_row, update_rows}
use omle_runtime.Operators.Core.{clamp, clamp_cell, clip_tensor}
use omle_runtime.Operators.Reduce.{variadic_reduce, reduce_operator, values_at, accumulate}
use omle_runtime.Operators.Votes.{label_at, row_vote}
use omle_runtime.Operators.Ballots.{tally}
use omle_runtime.Operators.Tally.{row_vote-tally}
use omle_runtime.Operators.Tokens.{row_tokens, tokens_to_tensor}
use omle_runtime.Operators.TokenRows.{row_tokens-tokens_to_tensor}
use omle_runtime.Operators.Text.{hash_token}
use omle_runtime.Operators.Hashing.{hash_token-in_row}
use omle_runtime.Operators.Strings.{str_trim}
use omle_runtime.Operators.Trimmed.{StartsInk, EndsInk, str_trim-clean}
use omle_runtime.Operators.Clipping.{Pairs, ClampedCell, clip_tensor-ClampedCell}
use omle_runtime.Operators.Shapes.{HasShape, reduce_operator-HasShape}
use omle_runtime.Operators.Transforms.{interval_of}
use omle_runtime.Operators.Interval.{Encloses, interval_of-Encloses}
use omle_runtime.Operators.Powers.{generated}
use omle_runtime.Operators.Exponents.{Fits, Among, total, generated-Fits}
use omle_runtime.Operators.Registry.{
  OperatorNode, Entry, Differs, IsLast, execute_operator, register_all, execute_operator-registered,
}

str_trim-clean_example :
    StartsInk (str_trim " a b ")
    × EndsInk (str_trim " a b ")
    × ((str_trim " a b " ≡ " a b ") ↔ (StartsInk " a b " × EndsInk " a b "))
    × (str_trim (str_trim " a b ") ≡ str_trim " a b ")
str_trim-clean_example = str_trim-clean " a b "

abbrev zero_row : List (F32)
zero_row = finite (pos 0) ∷ finite (pos 0) ∷ finite (pos 0) ∷ []

hash_token-in_row_example :
    (row : List (F32)) × (fold_list (hash_token false true 3) ("cat" ∷ "dog" ∷ []) zero_row
      ≡ ok row)
    × (length row ≡ 3)
hash_token-in_row_example = hash_token-in_row false true 2 ("cat" ∷ "dog" ∷ []) zero_row refl

row_tokens-tokens_to_tensor_example :
    row_tokens (tokens_to_tensor (("a" ∷ "b" ∷ []) ∷ ("c" ∷ []) ∷ [])) 1 ≡ ok ("c" ∷ [])
row_tokens-tokens_to_tensor_example =
    row_tokens-tokens_to_tensor (("a" ∷ "b" ∷ []) ∷ ("c" ∷ []) ∷ []) 1 ("c" ∷ []) refl (refl, tt)

abbrev labelled : ℕ → Tensor
labelled n = from_floats 2 1 (finite (pos n) ∷ finite (pos 0) ∷ [])

abbrev voters : ValueStore
voters = new_store (("a", labelled 1) ∷ ("b", labelled 2) ∷ ("c", labelled 1) ∷ [])

row_vote-tally_example :
    (z : ℤ) × (row_vote (λ r votes. votes) voters ("a" ∷ "b" ∷ "c" ∷ []) 0 ≡ ok z)
    × ((k : ℤ) → tally k (pos 1 ∷ pos 2 ∷ pos 1 ∷ []) ≤ tally z (pos 1 ∷ pos 2 ∷ pos 1 ∷ []))
unfolding label_at get_value lookup get read_elem raw_bytes from_floats storage_of read_f32
row_vote-tally_example =
    row_vote-tally voters 0 (λ r votes. votes) ("a" ∷ "b" ∷ "c" ∷ []) (pos 1 ∷ pos 2 ∷ pos 1 ∷ [])
      (λ e votes h. h) (λ e votes h. h) refl

abbrev some_numbers : Tensor
some_numbers = from_floats 3 1 (finite (pos 1) ∷ finite (pos 2) ∷ finite (pos 5) ∷ [])

abbrev clipped_numbers : Tensor
clipped_numbers = from_floats 3 1 (finite (pos 2) ∷ finite (pos 2) ∷ finite (pos 3) ∷ [])

clip_tensor-ClampedCell_example :
    (row : List Cell) × (row' : List Cell) × (first_cells
        (numel some_numbers)
        (owned_elements some_numbers)
      ≡ ok row)
    × (first_cells (numel clipped_numbers) (owned_elements clipped_numbers) ≡ ok row')
    × Pairs (ClampedCell (wants_f64 some_numbers) (finite (pos 2)) (finite (pos 3))) row row'
    × (clip_tensor (finite (pos 2)) (finite (pos 3)) clipped_numbers ≡ ok clipped_numbers)
unfolding clip_tensor update_rows update_row clamp_cell clamp numel owned_elements with_elements
    wants_f64 same_dtype from_floats read_f32
clip_tensor-ClampedCell_example =
    clip_tensor-ClampedCell (finite (pos 2)) (finite (pos 3)) some_numbers clipped_numbers
      (record { lo_lo = refl; hi_hi = refl; ordered = refl })
      (record { lo_lo = refl; hi_hi = refl; ordered = refl }) refl

abbrev one_input : ValueStore
one_input = new_store (("x", some_numbers) ∷ [])

reduce_operator-HasShape_example :
    (first result : Tensor) × (wide : Bool) × (get_value one_input "x" ≡ ok first)
    × (any_f64 one_input ("x" ∷ []) ≡ ok wide)
    × HasShape (if wide then float64 else float32) 3 first.n_cols result
    × ((name : String)
        → get_value (put "y" some_numbers one_input) name
          ≡ (if same "y" name then ok result else get_value one_input name))
unfolding reduce_operator variadic_reduce values_at accumulate any_f64 out_buf out_cells out_rows
    out_cell get_value has_value has_key put insert lookup get read_elem raw_bytes from_floats
    storage_of read_f32 same_dtype make_f32 with_elements flatten
reduce_operator-HasShape_example =
    reduce_operator-HasShape (λ n xs. ok (accumulate xs)) "x" "y" [] [] [] [] one_input
      (put "y" some_numbers one_input) 3 refl

-- A node whose operator is registered twice.
abbrev sum_node : OperatorNode
sum_node = record { domain = "omle.core"; op = "Keep"; in_names = []; out_names = []; attrs = [] }

abbrev kept_twice : List Entry
kept_twice =
    ("omle.core", "Keep", λ ins outs attrs fns vs n. ok vs)
    ∷ ("omle.core", "Keep", λ ins outs attrs fns vs n. ok (put "y" some_numbers vs))
    ∷ []

execute_operator-registered_example :
    ((fn : Operator) × IsLast kept_twice "omle.core/Keep" fn
      × (execute_operator (register_all kept_twice []) sum_node [] one_input 3
          ≡ fn [] [] [] [] one_input 3))
    ⊎ (All (Differs "omle.core/Keep") kept_twice
        × (execute_operator (register_all kept_twice []) sum_node [] one_input 3
            ≡ fail unknown_operator "unknown operator: omle.core/Keep"))
execute_operator-registered_example = execute_operator-registered kept_twice sum_node [] one_input 3

-- The references 0, 10, 20 and 30.
abbrev references : List Cell
references =
    double_cell (finite (pos 0))
    ∷ double_cell (finite (pos 10))
    ∷ double_cell (finite (pos 20))
    ∷ double_cell (finite (pos 30))
    ∷ []

abbrev reference : ℕ → F64
reference i = finite (pos (i * 10))

reference_lem : (i : ℕ) → i < 3 → entry_of references (0 + i) ≡ ok (reference i)
unfolding entry_of read_f64
reference_lem zero l = refl
reference_lem (suc zero) l = refl
reference_lem (suc (suc zero)) l = refl
reference_lem (suc (suc (suc n))) l = absurd (omega (arith, l))

interval_of-Encloses_example :
    (found : ℕ × ℕ) × (interval_of 2 references 0 (finite (pos 15)) 0 3 ≡ ok found)
    × Encloses references 0 reference (finite (pos 15)) 0 3 found
interval_of-Encloses_example =
    interval_of-Encloses references 0 reference (finite (pos 15)) 2 0 3 reference_lem (omega arith)
      (omega arith) refl refl

generated-Fits_example :
    Among (1 ∷ 1 ∷ []) (generated (pos 1) true 2 (pos 2))
    ↔ (Fits true 2 2 (1 ∷ 1 ∷ []) × (leb_ℤ (pos 1) (pos (total (1 ∷ 1 ∷ []))) ≡ true))
generated-Fits_example = generated-Fits (pos 1) true 2 2 (1 ∷ 1 ∷ [])
