-- ===== src/Nodes/Composite.antt =====
-- src/nodes/composite_node.h, src/nodes/composite_node.cpp: a node that runs nodes in a scope of its own.
use omle_runtime.Prelude.{
  ℕ, ◌≡◌, refl, sym, ap, arith, eq_iff, ◌∙◌, true, false, All, ◌⊎◌, inl, inr, Bool-cases, none,
  some, List, [], ◌∷◌, String, Map, lookup, insert, mem_name, same,
}
use omle_runtime.Floats.{Floats}
use omle_runtime.Status.{Result, ok, ◌>>=◌, >>=-cong, >>=-eq-ok, ok-injective}
use omle_runtime.Eval.{UserFunctionMap}
use omle_runtime.Tensor.{Tensor}
use omle_runtime.ValueStore.{ValueStore, new_store, constants_of, get_value, put, get_value-put}
use omle_runtime.Executor.{GraphNode}

module _ ⦃fl : Floats⦄ where
  -- CompositeNode, with the names of GraphNode
  pub record CompositeNode : Type 0 where
    pub in_names : List String
    pub out_names : List String
    pub input_aliases : List (String × String)
    pub nodes : List GraphNode
    pub output_aliases : List (String × String)

  -- The loops that fill the two maps: a later pair takes the place of an earlier one.
  unfoldable pub in_alias : List (String × String) → Map String → Map String
  unfolding insert
  in_alias [] names = names
  in_alias ((f, t) ∷ ps) names = in_alias ps (insert f t names)

  unfoldable pub out_alias : List (String × String) → Map String → Map String
  unfolding insert
  out_alias [] names = names
  out_alias ((f, t) ∷ ps) names = out_alias ps (insert t f names)

  unfoldable pub internal_name : Map String → String → String
  unfolding lookup
  internal_name names ext_name = elim (lookup ext_name names) [ some n ↦ n | none ↦ ext_name ]

  unfoldable pub enter : Map String → List String → ValueStore → ValueStore → Result ValueStore
  unfolding internal_name get_value put
  enter names [] vs scope = ok scope
  enter names (n ∷ ns) vs scope =
      get_value vs n >>= λ t. enter names ns vs (put (internal_name names n) t scope)

  -- RETURN_IF_ERROR(node->execute(child, n_rows))
  unfoldable pub run_scope : List GraphNode → UserFunctionMap → ValueStore → ℕ → Result ValueStore
  run_scope [] fns scope n_rows = ok scope
  run_scope (node ∷ nodes) fns scope n_rows =
      node fns scope n_rows >>= λ s. run_scope nodes fns s n_rows

  unfoldable pub leave : Map String → List String → ValueStore → ValueStore → Result ValueStore
  unfolding internal_name get_value put
  leave names [] scope vs = ok vs
  leave names (n ∷ ns) scope vs =
      get_value scope (internal_name names n) >>= λ t. leave names ns scope (put n t vs)

  -- CompositeNode::execute: the scope of the inner nodes has the constants and no parent.
  unfoldable pub execute_composite : CompositeNode → GraphNode
  unfolding in_alias out_alias enter run_scope leave
  execute_composite node fns vs n_rows = do
    entered ← enter (in_alias node.input_aliases []) node.in_names vs (new_store (constants_of vs))
    scope ← run_scope node.nodes fns entered n_rows
    leave (out_alias node.output_aliases []) node.out_names scope vs

  leave-kept :
      (names : Map String) (outs : List String) (scope vs after : ValueStore) (other : String)
      → leave names outs scope vs ≡ ok after
      → mem_name other outs ≡ false
      → get_value after other ≡ get_value vs other
  unfolding leave mem_name
  leave-kept names [] scope vs after other h m = rw (ok-injective h) refl
  leave-kept names (n ∷ ns) scope vs after other h m =
      let (t, e, h') = >>=-eq-ok (get_value scope (internal_name names n)) _ h in
      elim (Bool-cases (same n other)) [
        | inl q ↦ let bad = rw q at m in absurd cc
        | inr q ↦
            leave-kept names ns scope (put n t vs) after other h' (rw q at m)
            ∙ get_value-put n other t vs
            ∙ (rw q refl)
      ]

  -- A composite node that returns has changed no value of the store but those of its outputs,
  -- whatever its inner nodes put under which names.
  pub execute_composite-kept :
      (node : CompositeNode) (fns : UserFunctionMap) (vs after : ValueStore) (n_rows : ℕ)
      (other : String)
      → execute_composite node fns vs n_rows ≡ ok after
      → mem_name other node.out_names ≡ false
      → get_value after other ≡ get_value vs other
  unfolding execute_composite
  execute_composite-kept node fns vs after n_rows other h m =
      let (entered, e, h') =
        >>=-eq-ok
          (enter (in_alias node.input_aliases []) node.in_names vs (new_store (constants_of vs))) _
          h in
      let (scope, e', h'') = >>=-eq-ok (run_scope node.nodes fns entered n_rows) _ h' in
      leave-kept (out_alias node.output_aliases []) node.out_names scope vs after other h'' m

  enter-Alike :
      (names : Map String) (ins : List String) (vs vs' scope : ValueStore)
      → All (λ n. get_value vs n ≡ get_value vs' n) ins
      → enter names ins vs scope ≡ enter names ins vs' scope
  unfolding enter
  enter-Alike names [] vs vs' scope all = refl
  enter-Alike names (n ∷ ns) vs vs' scope all =
      ap (λ r. r >>= λ t. enter names ns vs (put (internal_name names n) t scope)) all.0
      ∙ >>=-cong (get_value vs' n) _ _
          (λ t. enter-Alike names ns vs vs' (put (internal_name names n) t scope) all.1)

  -- The value under a name is the same in both stores.
  abbrev Alike : ValueStore → ValueStore → String → Type 0
  Alike vs vs' n = get_value vs n ≡ get_value vs' n

  put-Alike :
      (n other : String) (t : Tensor) (vs vs' : ValueStore)
      → (same n other ≡ true) ⊎ Alike vs vs' other
      → Alike (put n t vs) (put n t vs') other
  put-Alike n other t vs vs' h = elim (Bool-cases (same n other)) [
    | inl e ↦ rw (get_value-put n other t vs, get_value-put n other t vs', e) refl
    | inr e ↦ rw (get_value-put n other t vs, get_value-put n other t vs', e) (kept e h)
  ]
    where
      kept : same n other ≡ false → (same n other ≡ true) ⊎ Alike vs vs' other → Alike vs vs' other
      kept e (inl e') = absurd cc
      kept e (inr a) = a

  mem_name-head : (n : String) (ns : List String) → mem_name n (n ∷ ns) ≡ true
  unfolding mem_name
  mem_name-head n ns = ground (arith, eq_iff n n)

  mem_name-tail :
      (k n : String) (ns : List String) → mem_name k ns ≡ true → mem_name k (n ∷ ns) ≡ true
  unfolding mem_name
  mem_name-tail k n ns m = ground (arith, m)

  leave-Alike :
      (names : Map String) (outs : List String) (scope vs vs' after : ValueStore)
      → leave names outs scope vs ≡ ok after
      → (after' : ValueStore) × (leave names outs scope vs' ≡ ok after')
        × ((n : String) → (mem_name n outs ≡ true) ⊎ Alike vs vs' n → Alike after after' n)
  unfolding leave mem_name
  leave-Alike names [] scope vs vs' after h =
      let e = ok-injective h in
      (vs', refl, λ n d. elim d [ inl m ↦ absurd cc | inr a ↦ ap (λ s. get_value s n) (sym e) ∙ a ])
  leave-Alike names (o ∷ outs) scope vs vs' after h =
      let (t, e, h') = >>=-eq-ok (get_value scope (internal_name names o)) _ h in
      let (after', r, alike) = leave-Alike names outs scope (put o t vs) (put o t vs') after h' in
      (after', rw e r, λ n d. alike n (later t n d))
    where
      later :
          (t : Tensor) (n : String)
          → (mem_name n (o ∷ outs) ≡ true) ⊎ Alike vs vs' n
          → (mem_name n outs ≡ true) ⊎ Alike (put o t vs) (put o t vs') n
      later t n (inr a) = inr (put-Alike o n t vs vs' (inr a))
      later t n (inl m) = elim (Bool-cases (same o n)) [
        | inl e ↦ inr (put-Alike o n t vs vs' (inl e))
        | inr e ↦ inl (ground (arith, m, e))
      ]

  -- Where a composite node returns on one store, it returns on every store with the same constants
  -- and the same values under its input names, and gives its outputs the same values: its inner
  -- nodes see nothing else of the store.
  pub execute_composite-isolated :
      (node : CompositeNode) (fns : UserFunctionMap) (vs vs' after : ValueStore) (n_rows : ℕ)
      → constants_of vs ≡ constants_of vs'
      → All (λ n. get_value vs n ≡ get_value vs' n) node.in_names
      → execute_composite node fns vs n_rows ≡ ok after
      → (after' : ValueStore) × (execute_composite node fns vs' n_rows ≡ ok after')
        × All (λ n. get_value after n ≡ get_value after' n) node.out_names
  unfolding execute_composite
  execute_composite-isolated node fns vs vs' after n_rows c all h =
      let names = in_alias node.input_aliases [] in
      let outs = out_alias node.output_aliases [] in
      let (entered, e, h') =
        >>=-eq-ok (enter names node.in_names vs (new_store (constants_of vs))) _ h in
      let (scope, e', h'') = >>=-eq-ok (run_scope node.nodes fns entered n_rows) _ h' in
      let (after', r, alike) = leave-Alike outs node.out_names scope vs vs' after h'' in
      let same_scope : enter names node.in_names vs' (new_store (constants_of vs')) ≡ ok entered =
        sym (enter-Alike names node.in_names vs vs' (new_store (constants_of vs')) all)
        ∙ ap (λ cs. enter names node.in_names vs (new_store cs)) (sym c)
        ∙ e in
      (after', rw (same_scope, e', r) refl, each after' alike node.out_names (λ n m. m))
    where
      each :
          (after' : ValueStore)
          → ((n : String)
              → (mem_name n node.out_names ≡ true) ⊎ Alike vs vs' n
              → Alike after after' n)
          → (ns : List String)
          → ((n : String) → mem_name n ns ≡ true → mem_name n node.out_names ≡ true)
          → All (λ n. get_value after n ≡ get_value after' n) ns
      each after' alike [] sub = tt
      each after' alike (n ∷ ns) sub = (
        alike n (inl (sub n (mem_name-head n ns))),
        each after' alike ns (λ k m. sub k (mem_name-tail k n ns m)),
      )
