-- ===== src/ValueStore.antt =====
-- src/runtime_tensor.h: the namespace of one call, and the gathering and scattering of its columns.
pub mod Slots
use omle_runtime.Prelude.{
  ◌≡◌, Bool, ◌||◌, Option, none, some, [], String, if◌then◌else◌, Map, lookup, insert, has_key,
  same, lookup-insert, arith, str_append,
}
use omle_runtime.Floats.{Floats}
use omle_runtime.Status.{Result, ok, throws}
use omle_runtime.Tensor.{Tensor}

module _ ⦃fl : Floats⦄ where
  -- ConstantStore
  abbrev pub ConstantStore : Type 0
  ConstantStore = Map Tensor

  -- ValueStore: local values and constants, without or with a parent scope.
  pub data ValueStore : Type 0 where
    root : Map Tensor → ConstantStore → ValueStore
    child : Map Tensor → ConstantStore → ValueStore → ValueStore

  abbrev pub new_store : ConstantStore → ValueStore
  new_store consts = root [] consts

  abbrev pub constants_of : ValueStore → ConstantStore
  constants_of (root vs cs) = cs
  constants_of (child vs cs p) = cs

  -- ValueStore::child_scope(&vs), on `vs`
  abbrev pub child_scope : ValueStore → ValueStore
  child_scope vs = child [] (constants_of vs) vs

  -- ValueStore::put
  unfoldable pub put : String → Tensor → ValueStore → ValueStore
  unfolding insert
  put name t (root vs cs) = root (insert name t vs) cs
  put name t (child vs cs p) = child (insert name t vs) cs p

  missing_value : String → Option Tensor → Result Tensor
  missing_value name (some t) = ok t
  missing_value name none =
      throws (str_append "omle: graph value '" (str_append name "' not found"))

  local_or : Option Tensor → Result Tensor → Result Tensor
  local_or (some t) other = ok t
  local_or none other = other

  -- ValueStore::get
  unfoldable pub get_value : ValueStore → String → Result Tensor
  unfolding lookup missing_value local_or
  get_value (root vs cs) name = local_or (lookup name vs) (missing_value name (lookup name cs))
  get_value (child vs cs p) name = local_or (lookup name vs) (get_value p name)

  -- ValueStore::has
  unfoldable pub has_value : ValueStore → String → Bool
  unfolding has_key
  has_value (root vs cs) name = has_key name vs || has_key name cs
  has_value (child vs cs p) name = has_key name vs || (has_value p name || has_key name cs)

  -- After `put name t` the store gives t for that name, and for any other name what it gave
  -- before, in whatever scope the store is.
  pub get_value-put :
      (name other : String) (t : Tensor) (vs : ValueStore)
      → get_value (put name t vs) other ≡ (if same name other then ok t else get_value vs other)
  unfolding put get_value
  get_value-put name other t (root vs cs) = ground (arith, lookup-insert name other t vs)
  get_value-put name other t (child vs cs p) = ground (arith, lookup-insert name other t vs)
