-- ===== src/Ensemble.antt =====
-- src/nodes/tree_ensemble_node.h, src/nodes/tree_ensemble_node.cpp: a tree as flat arrays, the test of
-- a split and the walks from the root to a leaf. T is the element type, with its test for NaN.
pub mod Forest
pub mod Walks
pub mod Batch
pub mod Single
pub mod Predict
pub mod General
pub mod Node
pub mod Labels
pub mod Shapes
pub mod Placed
pub mod BlockSize
pub mod Clean
pub mod ForestBuild
pub mod ForestSum
pub mod Depth
use omle_runtime.Prelude.{
  ℕ, zero, suc, ◌+◌, ◌-◌, ◌*◌, ◌≡◌, Bool, true, false, not, ◌&&◌, ◌||◌, Option, none, some, List,
  [], ◌∷◌, get_elem?, length, ltb, leb, ◌==◌, if◌then◌else◌,
}
use omle_runtime.Prelude.Int.{ℤ, pos, negsuc, eqb_ℤ, ◌+ℤ◌}
use omle_runtime.Floats.{Floats, Float}
use omle_runtime.Status.{
  Payload, Result, ok, error, throws, terminates, undefined, defined, ◌>>=◌, value,
}
use omle_runtime.Ast.{Pred}
use omle_runtime.PostTransform.{PostTransform}
use omle_runtime.ValueStore.{ValueStore}
use omle_runtime.Predicates.{eval_pred}

-- SplitOp (src/model_base.h)
pub data SplitOp : Type 0 where
  less_than less_or_equal greater_than greater_or_equal equal_to not_equal_to in_categories
        not_in_categories missing :
      SplitOp

-- Aggregation (src/model_base.h)
pub data Aggregation : Type 0 where
  sum average weighted_sum weighted_avg majority_vote soft_vote minimum maximum : Aggregation

-- v[i] with an int for the index
unfoldable pub at_int {ℓ} : {A : Type ℓ} → List A → ℤ → Result A
at_int xs (pos i) = defined (get_elem? xs i)
at_int xs (negsuc i) = undefined

-- feature[node] < 0
unfoldable pub is_negative : ℤ → Bool
is_negative (pos n) = false
is_negative (negsuc n) = true

-- AoSNode
pub record AosNode (A : Type 0) : Type 0 where
  pub feature : ℤ
  pub threshold : A
  pub left : ℤ
  pub right : ℤ

module _ ⦃fl : Floats⦄ where
  -- FlatTree
  pub record FlatTree (A : Type 0) : Type 0 where
    pub n_nodes : ℕ
    pub leaf_width : ℕ
    pub uniform_depth : ℕ
    pub feature : List ℤ
    pub threshold : List A
    pub left_child : List ℤ
    pub right_child : List ℤ
    pub default_child : List ℤ
    pub split_op : List SplitOp
    pub leaf_value : List A
    pub leaf_vector : List A
    pub leaf_vector_index : List ℤ
    pub category_set : List ℤ
    pub cat_offset : List ℤ
    pub cat_count : List ℤ
    pub complex_preds : List (ℤ × Pred)
    pub aos_nodes : List (AosNode A)
    pub all_less_than : Bool
    pub all_less_equal : Bool
    pub default_right : Bool
    pub has_complex : Bool

  -- TreeEnsembleModel::FlatForestData
  pub record FlatForest (A : Type 0) : Type 0 where
    pub all_nodes : List (AosNode A)
    pub roots : List ℕ
    pub tree_class : List ℤ
    pub forest_depth : ℕ
    pub all_le : Bool
    pub valid : Bool

  -- TreeEnsembleModel
  pub record TreeEnsembleModel (A : Type 0) : Type 0 where
    pub trees : List (FlatTree A)
    pub aggregation : Aggregation
    pub post_transform : PostTransform
    pub tree_weights : List A
    pub base_scores : List A
    pub tree_group : List ℤ
    pub n_features : ℕ
    pub n_outputs : ℕ
    pub n_trees : ℕ
    pub flat_forest : FlatForest A

  -- complex_preds.find(node)
  unfoldable pub find_pred : List (ℤ × Pred) → ℤ → Option Pred
  find_pred [] node = none
  find_pred ((i, p) ∷ ps) node = if eqb_ℤ i node then some p else find_pred ps node

  module _ (T : Float) (is_nan : T.Carrier → Bool) where
    open T use {Carrier, lt, le, eq, to_int}

    -- The loop of in_category_set, over `left` entries from index i on.
    unfoldable pub category_from : List ℤ → ℕ → ℤ → ℤ → Result Bool
    category_from cats zero i cat = ok false
    category_from cats (suc left) i cat =
        let rest = category_from cats left (i +ℤ pos 1) cat in
        at_int cats i >>= λ c. if eqb_ℤ c cat then ok true else rest

    count_of : ℤ → ℕ
    count_of (pos n) = n
    count_of (negsuc n) = 0

    -- in_category_set
    unfoldable pub in_category_set : FlatTree Carrier → ℤ → ℤ → Result Bool
    unfolding category_from count_of
    in_category_set tree node cat = do
      off ← at_int tree.cat_offset node
      cnt ← at_int tree.cat_count node
      category_from tree.category_set (count_of cnt) off cat

    -- The switch over the operator of a split.
    unfoldable pub split_holds : SplitOp → FlatTree Carrier → ℤ → Carrier → Carrier → Result Bool
    unfolding in_category_set
    split_holds less_than tree node thr fval = ok (lt fval thr)
    split_holds less_or_equal tree node thr fval = ok (le fval thr)
    split_holds greater_than tree node thr fval = ok (lt thr fval)
    split_holds greater_or_equal tree node thr fval = ok (le thr fval)
    split_holds equal_to tree node thr fval = ok (eq fval thr)
    split_holds not_equal_to tree node thr fval = ok (not (eq fval thr))
    split_holds in_categories tree node thr fval = in_category_set tree node (to_int true 32 fval)
    split_holds not_in_categories tree node thr fval =
        in_category_set tree node (to_int true 32 fval) >>= λ b. ok (not b)
    split_holds missing tree node thr fval = ok (is_nan fval)

    -- eval_split
    unfoldable pub eval_split : FlatTree Carrier → ℤ → Carrier → Result Bool
    unfolding split_holds
    eval_split tree node fval = do
      thr ← at_int tree.threshold node
      op ← at_int tree.split_op node
      split_holds op tree node thr fval

    -- How a walk tests a node with the value of its feature.
    abbrev pub Test : Type 0
    Test = FlatTree Carrier → ℤ → Carrier → Result Bool

    unfoldable pub below : Test
    below tree node fval = at_int tree.threshold node >>= λ thr. ok (lt fval thr)

    unfoldable pub at_most : Test
    at_most tree node fval = at_int tree.threshold node >>= λ thr. ok (le fval thr)

    abbrev pub child : FlatTree Carrier → ℤ → Bool → Result ℤ
    child tree node go_left =
        if go_left then at_int tree.left_child node else at_int tree.right_child node

    -- The body of a loop that never looks for NaN.
    unfoldable pub step_nonan : Test → FlatTree Carrier → List Carrier → ℤ → ℤ → Result ℤ
    step_nonan test tree row node feat =
        at_int row feat >>= λ fval. test tree node fval >>= child tree node

    -- The body of a loop that sends NaN to the default child.
    unfoldable pub step_default : Test → FlatTree Carrier → List Carrier → ℤ → ℤ → Result ℤ
    step_default test tree row node feat = at_int row feat >>= λ fval.
        if is_nan fval
        then at_int tree.default_child node
        else (test tree node fval >>= child tree node)

    -- while (tree.feature[node] >= 0) node = step(node): the fuel is more than the walk is long.
    unfoldable pub walk : (ℤ → ℤ → Result ℤ) → FlatTree Carrier → ℕ → ℤ → Result ℤ
    walk step tree zero node = undefined
    walk step tree (suc fuel) node =
        let next = λ (feat : ℤ). step node feat >>= walk step tree fuel in
        at_int tree.feature node >>= λ feat. if is_negative feat then ok node else next feat

    -- No walk in a tree without cycles visits more nodes than there are.
    abbrev pub fuel_of : FlatTree Carrier → ℕ
    fuel_of tree = suc tree.n_nodes

    unfoldable pub traverse_one_lt : FlatTree Carrier → List Carrier → Result ℤ
    unfolding walk step_default below
    traverse_one_lt tree row = walk (step_default below tree row) tree (fuel_of tree) (pos 0)

    unfoldable pub traverse_one_generic : FlatTree Carrier → List Carrier → Result ℤ
    unfolding walk step_default eval_split
    traverse_one_generic tree row =
        walk (step_default eval_split tree row) tree (fuel_of tree) (pos 0)

    unfoldable pub traverse_one_le_nonan : FlatTree Carrier → List Carrier → Result ℤ
    unfolding walk step_nonan at_most
    traverse_one_le_nonan tree row = walk (step_nonan at_most tree row) tree (fuel_of tree) (pos 0)

    unfoldable pub traverse_one_lt_nonan : FlatTree Carrier → List Carrier → Result ℤ
    unfolding walk step_nonan below
    traverse_one_lt_nonan tree row = walk (step_nonan below tree row) tree (fuel_of tree) (pos 0)

    unfoldable pub traverse_one_generic_nonan : FlatTree Carrier → List Carrier → Result ℤ
    unfolding walk step_nonan eval_split
    traverse_one_generic_nonan tree row =
        walk (step_nonan eval_split tree row) tree (fuel_of tree) (pos 0)

    -- (*hits_or)[0] != 0, where an error of eval_pred is thrown
    unfoldable pub first_hit : Pred → ValueStore → Result Bool
    first_hit p vs =
        value (eval_pred p vs 1) >>= λ hits. defined (get_elem? hits 0) >>= λ h. ok (not (h == 0))

    step_complex : FlatTree Carrier → List Carrier → ValueStore → ℤ → ℤ → Result ℤ
    unfolding find_pred first_hit step_default eval_split
    step_complex tree row vs node feat = elim (find_pred tree.complex_preds node) [
      | some p ↦ first_hit p vs >>= child tree node
      | none ↦ step_default eval_split tree row node feat
    ]

    -- traverse_one_complex
    unfoldable pub traverse_one_complex : FlatTree Carrier → List Carrier → ValueStore → Result ℤ
    unfolding walk step_complex
    traverse_one_complex tree row vs = walk (step_complex tree row vs) tree (fuel_of tree) (pos 0)
