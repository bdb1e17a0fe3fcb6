-- ===== src/Ensemble/ForestBuild.antt =====
-- src/nodes/tree_ensemble_node.cpp: what build_flat_forest leaves in a model, and predict_impl's two ways to
-- score one sample.
use omle_runtime.Prelude.{
  ℕ, zero, suc, ◌+◌, ◌≡◌, sym, ◌∙◌, ap, arith, Bool, true, false, inl, inr, Bool-cases, Option,
  List, length, ◌<◌, ◌≤◌, get_elem?, All, ◌==◌,
}
use omle_runtime.Floats.{Floats, Float}
use omle_runtime.Status.{ok, >>=-eq-ok, ok-injective}
use omle_runtime.ValueStore.{ValueStore}
use omle_runtime.Ensemble.{AosNode, TreeEnsembleModel}
use omle_runtime.Ensemble.Forest.{
  with_forest, flat_nodes, all_fit, consensus, root_offsets, tree_classes, deepest, forest_of,
  build_flat_forest,
}
use omle_runtime.Ensemble.Walks.{traverse_forest_n1}
use omle_runtime.Ensemble.Single.{group_trees}
use omle_runtime.Ensemble.Depth.{deepest-height}
use omle_runtime.Ensemble.ForestSum.{Grown, add_trees-grouped}

module _ ⦃fl : Floats⦄ (T : Float) where
  open T use {Carrier}

  abbrev pub forested :
      TreeEnsembleModel Carrier → ℕ → List (AosNode Carrier) → TreeEnsembleModel Carrier
  forested model depth nodes =
      with_forest T (record model { flat_forest = record model.flat_forest { valid = false } })
        (record {
          all_nodes = nodes;
          roots = root_offsets T model.trees 0;
          tree_class = tree_classes T model.tree_group model.trees 0;
          forest_depth = depth;
          all_le = consensus T model.trees;
          valid = true;
        })

  -- A model whose forest is valid has the forest of its trees, which all fit in with one another.
  record IsBuilt (fuel : ℕ) (model built : TreeEnsembleModel Carrier) : Type 0 where
    pub depth : ℕ
    pub nodes : List (AosNode Carrier)
    pub fit : all_fit T (consensus T model.trees) model.trees ≡ true
    pub lowest : deepest T fuel model.trees 0 ≡ ok depth
    pub copied : flat_nodes T model.trees 0 ≡ ok nodes
    pub result : built ≡ forested model depth nodes

  still_invalid :
      (model built : TreeEnsembleModel Carrier)
      → ok (record model { flat_forest = record model.flat_forest { valid = false } }) ≡ ok built
      → ¬ (built.flat_forest.valid ≡ true)
  still_invalid model built h v =
      let e : false ≡ true =
        ap (λ (m : TreeEnsembleModel Carrier). m.flat_forest.valid) (ok-injective h) ∙ v in
      absurd cc

  forest_of-IsBuilt :
      (fuel : ℕ) (model built : TreeEnsembleModel Carrier) (d : ℕ)
      → all_fit T (consensus T model.trees) model.trees ≡ true
      → deepest T fuel model.trees 0 ≡ ok d
      → forest_of T
          (consensus T model.trees)
          d
          (record model { flat_forest = record model.flat_forest { valid = false } })
        ≡ ok built
      → built.flat_forest.valid ≡ true
      → IsBuilt fuel model built
  unfolding forest_of
  forest_of-IsBuilt fuel model built zero f hd h v = absurd (still_invalid model built h v)
  forest_of-IsBuilt fuel model built (suc d) f hd h v =
      let (nodes, hn, h') = >>=-eq-ok (flat_nodes T model.trees 0) _ h in
      record {
        depth = suc d;
        nodes = nodes;
        fit = f;
        lowest = hd;
        copied = hn;
        result = sym (ok-injective h');
      }

  build_flat_forest-IsBuilt :
      (fuel : ℕ) (model built : TreeEnsembleModel Carrier)
      → build_flat_forest T fuel model ≡ ok built
      → built.flat_forest.valid ≡ true
      → IsBuilt fuel model built
  unfolding build_flat_forest
  build_flat_forest-IsBuilt fuel model built h v =
      let use_le = consensus T model.trees in
      let invalid = record model { flat_forest = record model.flat_forest { valid = false } } in
      elim (Bool-cases (length model.trees == 0)) [
        | inl e ↦ absurd (still_invalid model built (rw e at h) v)
        | inr e ↦ elim (Bool-cases (all_fit T use_le model.trees)) [
          | inr f ↦ absurd (still_invalid model built (rw (e, f) at h) v)
          | inl f ↦
              let (d, hd, h') =
                >>=-eq-ok (deepest T fuel model.trees 0) (λ d. forest_of T use_le d invalid)
                  (rw (e, f) at h) in
              forest_of-IsBuilt fuel model built d f hd h' v
        ]
      ]

module _ ⦃fl : Floats⦄ (T : Float) (is_nan : T.Carrier → Bool) (highest : T.Carrier) where
  open T use {Carrier}

  forest-group_trees :
      (fuel : ℕ) (model : TreeEnsembleModel Carrier) (depth : ℕ) (nodes : List (AosNode Carrier))
      (row : List Carrier) (vs : Option ValueStore) (out : List Carrier)
      → All Grown model.trees
      → All (λ tree. tree.n_nodes ≤ fuel) model.trees
      → model.n_trees ≡ length model.trees
      → all_fit T (consensus T model.trees) model.trees ≡ true
      → deepest T fuel model.trees 0 ≡ ok depth
      → flat_nodes T model.trees 0 ≡ ok nodes
      → let made = forested T model depth nodes in
        traverse_forest_n1 T made.flat_forest.all_le made.flat_forest row out
        ≡ group_trees T is_nan highest made row false vs out
  unfolding traverse_forest_n1 group_trees
  forest-group_trees fuel model depth nodes row vs out g small n fit low copied =
      let made = forested T model depth nodes in
      let lower = (deepest-height T model.trees fuel 0 depth small low).1 in
      let placed : (i : ℕ) → i < length nodes → get_elem? nodes (0 + i) ≡ get_elem? nodes i =
        λ i b. ap (get_elem? nodes) (omega arith) in
      let in_order : (i : ℕ) → get_elem? made.trees (0 + i) ≡ get_elem? made.trees i =
        λ i. ap (get_elem? made.trees) (omega arith) in
      rw n (
        add_trees-grouped T is_nan highest made (consensus T model.trees) row vs nodes depth
          model.trees 0 0 nodes out copied placed g lower fit in_order)

  -- On a model that build_flat_forest has given a valid forest, for one sample, traverse_forest_n1
  -- returns what the loop over the trees with traverse_single for a row without NaN does: the same
  -- scores, in the same order of addition, and undefined where that is. The trees are trees of at
  -- most `fuel` nodes each, and only those without splits have both flags.
  pub traverse_forest_n1-group_trees :
      (fuel : ℕ) (model built : TreeEnsembleModel Carrier) (row : List Carrier)
      (vs : Option ValueStore) (out : List Carrier)
      → All Grown model.trees
      → All (λ tree. tree.n_nodes ≤ fuel) model.trees
      → model.n_trees ≡ length model.trees
      → build_flat_forest T fuel model ≡ ok built
      → built.flat_forest.valid ≡ true
      → traverse_forest_n1 T built.flat_forest.all_le built.flat_forest row out
        ≡ group_trees T is_nan highest built row false vs out
  traverse_forest_n1-group_trees fuel model built row vs out g small n h v =
      let b = build_flat_forest-IsBuilt T fuel model built h v in
      let same =
        forest-group_trees fuel model b.depth b.nodes row vs out g small n b.fit b.lowest
          b.copied in
      ap (λ m. traverse_forest_n1 T m.flat_forest.all_le m.flat_forest row out) b.result
      ∙ same
      ∙ ap (λ m. group_trees T is_nan highest m row false vs out) (sym b.result)
