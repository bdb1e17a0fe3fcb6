-- ===== src/Eval/Names.antt =====
-- The names of functions with and without their namespace, and user functions.
use Prim.Native.String.{len}
use text.Mathlib.TextPositions.{len-append, slice-append_left, slice-append_right}
use omle_runtime.Prelude.{
  ℕ, ◌<◌, ◌≡◌, Bool, true, false, none, some, List, String, str_append, lookup, arith,
}
use omle_runtime.Floats.{Floats}
use omle_runtime.Status.{Result}
use omle_runtime.ValueStore.{ValueStore}
use omle_runtime.Functions.{Column, fn_table}
use omle_runtime.Functions.Special.{special}
use omle_runtime.Eval.{ns_prefix, base_name, eval_apply}

-- A function's name with the namespace in front is resolved to the name.
pub base_name-append : (f : String) → 0 < len f → base_name (str_append ns_prefix f) ≡ f
unfolding base_name
base_name-append f h =
    rw (len-append ns_prefix f, slice-append_left ns_prefix f, slice-append_right ns_prefix f)
      (ground arith)

module _ ⦃fl : Floats⦄ where
  -- Is there a function of this name in the language, for so many arguments?
  abbrev pub is_builtin : String → List Column → ℕ → Bool
  is_builtin f args n = elim (special f args n) [
    | some r ↦ true
    | none ↦ elim (lookup f fn_table) [ some g ↦ true | none ↦ false ]
  ]

  -- A function of the language, under a name that is not empty and has no prefix, does the same
  -- under its qualified name as under its bare name.
  pub eval_apply-qualified :
      (call : String → List Column → ValueStore → ℕ → Result Column) (f : String)
      (args : List Column) (vs : ValueStore) (n : ℕ)
      → 0 < len f
      → base_name f ≡ f
      → is_builtin f args n ≡ true
      → eval_apply call (str_append ns_prefix f) args vs n ≡ eval_apply call f args vs n
  unfolding eval_apply
  eval_apply-qualified call f args vs n h bare known = ground (arith, base_name-append f h)
