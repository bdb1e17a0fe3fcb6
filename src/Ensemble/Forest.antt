-- ===== src/Ensemble/Forest.antt =====
-- src/nodes/tree_ensemble_node.cpp: the node records of a tree, its depth, and the node records of all trees
-- together.
use omle_runtime.Prelude.{
  ℕ, zero, suc, ◌+◌, Bool, true, false, not, ◌&&◌, ◌||◌, Option, none, some, List, [], ◌∷◌, ◌++◌,
  map, length, get_elem?, ◌==◌, if◌then◌else◌, max,
}
use omle_runtime.Prelude.Int.{ℤ, pos, ◌+ℤ◌}
use omle_runtime.Floats.{Floats, Float}
use omle_runtime.Status.{Result, ok, undefined, tabulate, ◌>>=◌}
use omle_runtime.Ensemble.{AosNode, FlatTree, FlatForest, TreeEnsembleModel, at_int, is_negative}

module _ ⦃fl : Floats⦄ (T : Float) where
  open T use {Carrier, lt, le, add, literal}

  -- One entry of the loop of build_aos_for_tree.
  unfoldable pub aos_node : FlatTree Carrier → ℕ → Result (AosNode Carrier)
  aos_node tree i = do
    feat ← at_int tree.feature (pos i)
    thr ← (if is_negative feat then ok (literal (pos 0) 0) else at_int tree.threshold (pos i))
    l ← at_int tree.left_child (pos i)
    r ← at_int tree.right_child (pos i)
    ok (record { feature = feat; threshold = thr; left = l; right = r })

  -- build_aos_for_tree
  unfoldable pub build_aos_for_tree : FlatTree Carrier → Result (FlatTree Carrier)
  unfolding aos_node
  build_aos_for_tree tree =
      if (not tree.all_less_than && not tree.all_less_equal)
        || (tree.has_complex || tree.n_nodes == 0)
      then ok tree
      else (tabulate (aos_node tree) 0 tree.n_nodes >>= λ nodes.
          ok (record tree { aos_nodes = nodes }))

  -- The loop over the stack of detect_max_depth: a frame is a node with its depth.
  unfoldable pub max_depth_from : ℕ → FlatTree Carrier → List (ℤ × ℕ) → ℕ → Result ℕ
  max_depth_from fuel tree [] deepest = ok deepest
  max_depth_from zero tree (frame ∷ stk) deepest = undefined
  max_depth_from (suc fuel) tree ((node, d) ∷ stk) deepest =
      let at_leaf = max_depth_from fuel tree stk (max deepest d) in
      let at_split = at_int tree.left_child node >>= λ l. at_int tree.right_child node >>= λ r.
      max_depth_from fuel tree ((r, suc d) ∷ (l, suc d) ∷ stk) deepest in
      at_int tree.feature node >>= λ feat. if is_negative feat then at_leaf else at_split

  -- detect_max_depth, with fuel for each frame that is popped
  unfoldable pub detect_max_depth : ℕ → FlatTree Carrier → Result ℕ
  unfolding max_depth_from
  detect_max_depth fuel tree =
      if tree.n_nodes == 0 then ok 0 else max_depth_from fuel tree ((pos 0, 0) ∷ []) 0

  -- The loop of detect_uniform_depth; `none` for a leaf depth of -1.
  unfoldable pub uniform_depth_from : ℕ → FlatTree Carrier → List (ℤ × ℕ) → Option ℕ → Result ℕ
  uniform_depth_from fuel tree [] none = ok 0
  uniform_depth_from fuel tree [] (some d) = ok d
  uniform_depth_from zero tree (frame ∷ stk) seen = undefined
  uniform_depth_from (suc fuel) tree ((node, d) ∷ stk) seen =
      let next = uniform_depth_from fuel tree stk (some d) in
      let at_split = at_int tree.left_child node >>= λ l. at_int tree.right_child node >>= λ r.
      uniform_depth_from fuel tree ((r, suc d) ∷ (l, suc d) ∷ stk) seen in
      let at_leaf : Result ℕ = elim seen [ none ↦ next | some e ↦ if d == e then next else ok 0 ] in
      at_int tree.feature node >>= λ feat. if is_negative feat then at_leaf else at_split

  -- detect_uniform_depth
  unfoldable pub detect_uniform_depth : ℕ → FlatTree Carrier → Result ℕ
  unfolding uniform_depth_from
  detect_uniform_depth fuel tree =
      if tree.n_nodes == 0 then ok 0 else uniform_depth_from fuel tree ((pos 0, 0) ∷ []) none

  abbrev pub no_constraint : FlatTree Carrier → Bool
  no_constraint tr = tr.all_less_than && tr.all_less_equal

  -- The comparison of the first tree that has splits.
  unfoldable pub consensus : List (FlatTree Carrier) → Bool
  consensus [] = false
  consensus (tr ∷ trs) = if no_constraint tr then consensus trs else tr.all_less_equal

  unfoldable pub fits : Bool → FlatTree Carrier → Bool
  fits use_le tr =
      if tr.has_complex || not (tr.leaf_width == 1)
      then false
      else if no_constraint tr
      then true
      else if use_le
      then tr.all_less_equal
      else not tr.all_less_equal && tr.all_less_than

  -- The loop that returns where a tree does not go with the others.
  unfoldable pub all_fit : Bool → List (FlatTree Carrier) → Bool
  unfolding fits
  all_fit use_le [] = true
  all_fit use_le (tr ∷ trs) = fits use_le tr && all_fit use_le trs

  -- The node i of a tree whose nodes start at `off`: a leaf has its value for the threshold, and
  -- itself for both children.
  unfoldable pub flat_node : FlatTree Carrier → ℕ → ℕ → Result (AosNode Carrier)
  flat_node tr off i =
      let self = pos (off + i) in
      at_int tr.feature (pos i) >>= λ feat.
      if is_negative feat
      then (at_int tr.leaf_value (pos i) >>= λ v.
          ok (record { feature = feat; threshold = v; left = self; right = self }))
      else (at_int tr.threshold (pos i) >>= λ thr. at_int tr.left_child (pos i) >>= λ l.
          at_int tr.right_child (pos i) >>= λ r.
          ok
            (record { feature = feat; threshold = thr; left = l +ℤ pos off; right = r +ℤ pos off }))

  -- The loop over the trees: their nodes one after the other, and where each starts.
  unfoldable pub flat_nodes : List (FlatTree Carrier) → ℕ → Result (List (AosNode Carrier))
  unfolding flat_node
  flat_nodes [] off = ok []
  flat_nodes (tr ∷ trs) off = do
    nodes ← tabulate (flat_node tr off) 0 tr.n_nodes
    rest ← flat_nodes trs (off + tr.n_nodes)
    ok (nodes ++ rest)

  unfoldable pub root_offsets : List (FlatTree Carrier) → ℕ → List ℕ
  root_offsets [] off = []
  root_offsets (tr ∷ trs) off = off ∷ root_offsets trs (off + tr.n_nodes)

  -- t < tree_group.size() ? tree_group[t] : 0
  unfoldable pub class_of : List ℤ → ℕ → ℤ
  class_of groups t = elim (get_elem? groups t) [ some g ↦ g | none ↦ pos 0 ]

  unfoldable pub tree_classes : List ℤ → List (FlatTree Carrier) → ℕ → List ℤ
  unfolding class_of
  tree_classes groups [] t = []
  tree_classes groups (tr ∷ trs) t = class_of groups t ∷ tree_classes groups trs (suc t)

  unfoldable pub deepest : ℕ → List (FlatTree Carrier) → ℕ → Result ℕ
  unfolding detect_max_depth
  deepest fuel [] d = ok d
  deepest fuel (tr ∷ trs) d = detect_max_depth fuel tr >>= λ e. deepest fuel trs (max d e)

  abbrev pub drop_aos : FlatTree Carrier → FlatTree Carrier
  drop_aos tr = record tr { aos_nodes = [] }

  abbrev pub with_forest :
      TreeEnsembleModel Carrier → FlatForest Carrier → TreeEnsembleModel Carrier
  with_forest model ff = record model { flat_forest = ff; trees = map drop_aos model.trees }

  unfoldable pub forest_of :
      Bool → ℕ → TreeEnsembleModel Carrier → Result (TreeEnsembleModel Carrier)
  unfolding flat_nodes root_offsets tree_classes
  forest_of use_le zero model = ok model
  forest_of use_le (suc d) model = do
    nodes ← flat_nodes model.trees 0
    ok (
        with_forest model (record {
          all_nodes = nodes;
          roots = root_offsets model.trees 0;
          tree_class = tree_classes model.tree_group model.trees 0;
          forest_depth = suc d;
          all_le = use_le;
          valid = true;
        }))

  -- build_flat_forest, with the fuel of detect_max_depth
  unfoldable pub build_flat_forest :
      ℕ → TreeEnsembleModel Carrier → Result (TreeEnsembleModel Carrier)
  unfolding consensus all_fit deepest forest_of
  build_flat_forest fuel model =
      let invalid = record model { flat_forest = record model.flat_forest { valid = false } } in
      let use_le = consensus model.trees in
      if length model.trees == 0
      then ok invalid
      else if all_fit use_le model.trees
      then (deepest fuel model.trees 0 >>= λ d. forest_of use_le d invalid)
      else ok invalid
