-- ===== src/Tests/Forests.antt =====
-- Examples for the tree ensembles, with a tree that asks whether the one feature is below five and a
-- tree that is a leaf, and for a linear model.
use omle_runtime.Prelude.{
  ◌<◌, ℕ, ◌≡◌, refl, arith, true, false, none, List, [], ◌∷◌, ◌≤◌, ◌*◌, ◌%◌, ◌⊎◌, All,
}
use omle_runtime.Prelude.Int.{pos, negsuc}
use omle_runtime.Floats.{Float, is_nan_safe32}
use omle_runtime.Floats.Toy.{toy, Number, finite, not_a_number}
use omle_runtime.Status.{Result, ok, ◌>>=◌}
use omle_runtime.PostTransform.{identity}
use omle_runtime.Ensemble.{
  FlatTree, TreeEnsembleModel, is_negative, less_than, sum, at_int, traverse_one_lt,
  traverse_one_lt_nonan, traverse_one_generic, traverse_one_generic_nonan,
}
use omle_runtime.Ensemble.Forest.{build_flat_forest, detect_max_depth}
use omle_runtime.Ensemble.Walks.{traverse_forest_n1}
use omle_runtime.Ensemble.Single.{is_sum, group_trees, scan_has_nan}
use omle_runtime.Ensemble.Predict.{predict_impl, compute_block_size, avx2, simd_width, cache_bytes}
use omle_runtime.Ensemble.Shapes.{
  Within, Encodes, root_of, size_of, Shape, leaf_at, split_at, height_of, leaf_of, IsTree, left_nan,
  traverse_one_lt-leaf_of,
}
use omle_runtime.Ensemble.Node.{arg_max}
use omle_runtime.Ensemble.Labels.{arg_max-lt}
use omle_runtime.Ensemble.Depth.{detect_max_depth-height}
use omle_runtime.Ensemble.ForestSum.{Grown}
use omle_runtime.Ensemble.ForestBuild.{forested, traverse_forest_n1-group_trees}
use omle_runtime.Ensemble.Clean.{scan_has_nan-traverse}
use omle_runtime.Ensemble.BlockSize.{compute_block_size-bounds}

abbrev num : ℕ → Number
num n = finite (pos n)

-- NaN goes left.
abbrev stump : FlatTree Number
stump = record {
  n_nodes = 3;
  leaf_width = 1;
  uniform_depth = 1;
  feature = pos 0 ∷ negsuc 0 ∷ negsuc 0 ∷ [];
  threshold = num 5 ∷ num 0 ∷ num 0 ∷ [];
  left_child = pos 1 ∷ negsuc 0 ∷ negsuc 0 ∷ [];
  right_child = pos 2 ∷ negsuc 0 ∷ negsuc 0 ∷ [];
  default_child = pos 1 ∷ negsuc 0 ∷ negsuc 0 ∷ [];
  split_op = less_than ∷ less_than ∷ less_than ∷ [];
  leaf_value = num 0 ∷ num 10 ∷ num 20 ∷ [];
  leaf_vector = [];
  leaf_vector_index = [];
  category_set = [];
  cat_offset = [];
  cat_count = [];
  complex_preds = [];
  aos_nodes = [];
  all_less_than = true;
  all_less_equal = false;
  default_right = false;
  has_complex = false;
}

abbrev constant : FlatTree Number
constant = record stump {
  n_nodes = 1;
  uniform_depth = 0;
  feature = negsuc 0 ∷ [];
  leaf_value = num 3 ∷ [];
  all_less_equal = true;
}

abbrev stump_shape : Shape Number
stump_shape = split_at 0 0 (num 5) true (leaf_at 1 (num 10)) (leaf_at 2 (num 20))

stump-IsTree : IsTree stump stump_shape
unfolding root_of size_of Within Encodes at_int
stump-IsTree = record {
  at_root = refl;
  counted = refl;
  inside = (omega arith, omega arith, omega arith);
  encodes = (refl, refl, refl, refl, refl, ((0, refl), refl), ((0, refl), refl));
}

constant-IsTree : IsTree constant (leaf_at 0 (num 3))
unfolding root_of size_of Within Encodes at_int
constant-IsTree = record {
  at_root = refl;
  counted = refl;
  inside = omega arith;
  encodes = ((0, refl), refl);
}

abbrev two_trees : TreeEnsembleModel Number
two_trees = record {
  trees = stump ∷ constant ∷ [];
  aggregation = sum;
  post_transform = identity;
  tree_weights = [];
  base_scores = [];
  tree_group = [];
  n_features = 1;
  n_outputs = 1;
  n_trees = 2;
  flat_forest = record {
    all_nodes = [];
    roots = [];
    tree_class = [];
    forest_depth = 0;
    all_le = false;
    valid = false;
  };
}

abbrev number : Float
number = toy.f32

abbrev scores : List Number → ℕ → Result (List Number)
scores features n = predict_impl number is_nan_safe32 (num 100) 4 two_trees features n none 1 none

-- A single sample with NaN goes to the default child, and a batch of two goes right.
one_nan : scores (not_a_number ∷ []) 1 ≡ ok (num 13 ∷ [])
unfolding predict_impl is_nan_safe32 is_sum compute_block_size at_int is_negative
one_nan = refl

two_nan : scores (not_a_number ∷ not_a_number ∷ []) 2 ≡ ok (num 23 ∷ num 23 ∷ [])
unfolding predict_impl is_nan_safe32 is_sum compute_block_size at_int is_negative
two_nan = refl

traverse_one_lt-leaf_of_example :
    (traverse_one_lt number is_nan_safe32 stump (num 4 ∷ []) >>= λ n.
    at_int stump.leaf_value n >>= ok)
    ≡ (leaf_of (left_nan number is_nan_safe32) (num 4 ∷ []) stump_shape >>= ok)
traverse_one_lt-leaf_of_example =
    traverse_one_lt-leaf_of number is_nan_safe32 (num 4 ∷ []) stump stump_shape stump-IsTree ok

detect_max_depth-height_example : detect_max_depth number 3 stump ≡ ok (height_of stump_shape)
detect_max_depth-height_example =
    detect_max_depth-height number stump stump_shape 3 stump-IsTree (omega arith)

scan_has_nan-traverse_example :
    (traverse_one_lt number is_nan_safe32 stump (num 7 ∷ [])
      ≡ traverse_one_lt_nonan number is_nan_safe32 stump (num 7 ∷ []))
    × (traverse_one_generic number is_nan_safe32 stump (num 7 ∷ [])
        ≡ traverse_one_generic_nonan number is_nan_safe32 stump (num 7 ∷ []))
unfolding scan_has_nan is_nan_safe32
scan_has_nan-traverse_example =
    scan_has_nan-traverse number is_nan_safe32 (num 100) stump (num 7 ∷ []) 1 refl (omega arith)

compute_block_size-bounds_example :
    (8 ≤ compute_block_size avx2 784 4)
    × (compute_block_size avx2 784 4 ≤ 128)
    × (compute_block_size avx2 784 4 % 8 ≡ 0)
    × ((compute_block_size avx2 784 4 ≡ 8) ⊎ (compute_block_size avx2 784 4 * (784 * 4) ≤ 24576))
unfolding simd_width cache_bytes
compute_block_size-bounds_example = compute_block_size-bounds avx2 784 4

two_trees-Grown : All Grown two_trees.trees
unfolding height_of
two_trees-Grown = (
  record { shape = stump_shape; is_tree = stump-IsTree; no_split = λ h. absurd cc },
  (record { shape = leaf_at 0 (num 3); is_tree = constant-IsTree; no_split = λ h. refl }, tt),
)

abbrev built_trees : TreeEnsembleModel Number
built_trees = forested number two_trees 1 (
    record { feature = pos 0; threshold = num 5; left = pos 1; right = pos 2 }
    ∷ record { feature = negsuc 0; threshold = num 10; left = pos 1; right = pos 1 }
    ∷ record { feature = negsuc 0; threshold = num 20; left = pos 2; right = pos 2 }
    ∷ record { feature = negsuc 0; threshold = num 3; left = pos 3; right = pos 3 }
    ∷ [])

traverse_forest_n1-group_trees_example :
    traverse_forest_n1 number false built_trees.flat_forest (num 7 ∷ []) (num 0 ∷ [])
    ≡ group_trees number is_nan_safe32 (num 100) built_trees (num 7 ∷ []) false none (num 0 ∷ [])
unfolding build_flat_forest at_int is_negative
traverse_forest_n1-group_trees_example =
    traverse_forest_n1-group_trees number is_nan_safe32 (num 100) 3 two_trees built_trees
      (num 7 ∷ []) none (num 0 ∷ []) two_trees-Grown (omega arith, (omega arith, tt)) refl refl refl

arg_max-lt_example : arg_max number (num 1 ∷ not_a_number ∷ num 3 ∷ []) < 3
arg_max-lt_example = arg_max-lt number (num 1 ∷ not_a_number ∷ num 3 ∷ []) (omega arith)
