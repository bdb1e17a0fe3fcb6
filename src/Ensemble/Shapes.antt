-- ===== src/Ensemble/Shapes.antt =====
-- A decision tree as a data type, the arrays of a FlatTree (src/nodes/tree_ensemble_node.h) that encode
-- it, and the leaf that the walks of src/nodes/tree_ensemble_node.cpp end at.
use omle_runtime.Prelude.{ℕ, zero, suc, ◌+◌, ◌≡◌, refl, arith, Bool, List, ◌<◌, if◌then◌else◌, max}
use omle_runtime.Prelude.Int.{ℤ, pos, negsuc}
use omle_runtime.Floats.{Floats, Float}
use omle_runtime.Status.{Result, ok, error, throws, terminates, undefined, ◌>>=◌, >>=-cong}
use omle_runtime.Ensemble.{
  FlatTree, at_int, is_negative, step_nonan, step_default, below, at_most, walk, fuel_of,
  traverse_one_lt, traverse_one_lt_nonan, traverse_one_le_nonan,
}

-- A node has its index, and a split its feature, its threshold and the side that NaN goes to (left for
-- true).
pub data Shape (A : Type 0) : Type 0 where
  leaf_at : ℕ → A → Shape A
  split_at : ℕ → ℕ → A → Bool → Shape A → Shape A → Shape A

module _ {A : Type 0} where
  unfoldable pub root_of : Shape A → ℕ
  root_of (leaf_at i v) = i
  root_of (split_at i feat thr d l r) = i

  unfoldable pub size_of : Shape A → ℕ
  size_of (leaf_at i v) = 1
  size_of (split_at i feat thr d l r) = suc (size_of l + size_of r)

  unfoldable pub height_of : Shape A → ℕ
  height_of (leaf_at i v) = 0
  height_of (split_at i feat thr d l r) = suc (max (height_of l) (height_of r))

  -- All nodes have an index below n.
  unfoldable pub Within : ℕ → Shape A → Type 0
  Within n (leaf_at i v) = i < n
  Within n (split_at i feat thr d l r) = (i < n) × Within n l × Within n r

  -- The value of the leaf that a row reaches: `left d x thr` tells whether the value x goes left.
  unfoldable pub leaf_of : (Bool → A → A → Bool) → List A → Shape A → Result A
  leaf_of left row (leaf_at i v) = ok v
  leaf_of left row (split_at i feat thr d l r) =
      let on_left = leaf_of left row l in
      let on_right = leaf_of left row r in
      at_int row (pos feat) >>= λ x. if left d x thr then on_left else on_right

  pub height-size : (s : Shape A) → height_of s < size_of s
  unfolding height_of size_of
  height-size (leaf_at i v) = omega arith
  height-size (split_at i feat thr d l r) = omega (arith, height-size l, height-size r)

module _ ⦃fl : Floats⦄ {A : Type 0} where
  -- The arrays of the tree hold the nodes of the shape.
  unfoldable pub Encodes : FlatTree A → Shape A → Type 0
  Encodes tree (leaf_at i v) =
      ((k : ℕ) × (at_int tree.feature (pos i) ≡ ok (negsuc k)))
      × (at_int tree.leaf_value (pos i) ≡ ok v)
  Encodes tree (split_at i feat thr d l r) =
      (at_int tree.feature (pos i) ≡ ok (pos feat))
      × (at_int tree.threshold (pos i) ≡ ok thr)
      × (at_int tree.left_child (pos i) ≡ ok (pos (root_of l)))
      × (at_int tree.right_child (pos i) ≡ ok (pos (root_of r)))
      × (at_int tree.default_child (pos i) ≡ ok (pos (if d then root_of l else root_of r)))
      × Encodes tree l
      × Encodes tree r

  -- The tree is a FlatTree of the shape.
  pub record IsTree (tree : FlatTree A) (s : Shape A) : Type 0 where
    pub at_root : root_of s ≡ 0
    pub counted : size_of s ≡ tree.n_nodes
    pub inside : Within tree.n_nodes s
    pub encodes : Encodes tree s

  -- A step of a walk decides as `left` does.
  abbrev pub Follows : (ℤ → ℤ → Result ℤ) → (Bool → A → A → Bool) → List A → FlatTree A → Type 0
  Follows step left row tree =
      (i feat : ℕ) (thr : A) (d : Bool) (l r : Shape A)
      → Encodes tree (split_at i feat thr d l r)
      → step (pos i) (pos feat) ≡ (
          at_int row (pos feat) >>= λ x.
          ok (if left d x thr then pos (root_of l) else pos (root_of r)))

module _ ⦃fl : Floats⦄ (T : Float) (is_nan : T.Carrier → Bool) where
  open T use {Carrier, lt, le}

  -- A round that goes on at one of two nodes ends as the walk from that node does.
  pub either :
      {B C : Type 0} (read : Result Carrier) (side : Carrier → Bool) (a b : ℤ) (go : ℤ → Result ℤ)
      (last : ℤ → Result B) (x y : Result C) (k : C → Result B)
      → (go a >>= last) ≡ (x >>= k)
      → (go b >>= last) ≡ (y >>= k)
      → (read >>= (λ v. ok (if side v then a else b)) >>= go >>= last)
        ≡ (read >>= (λ v. if side v then x else y) >>= k)
  either (ok v) side a b go last x y k hx hy = ground (arith, hx, hy)
  either undefined side a b go last x y k hx hy = refl
  either terminates side a b go last x y k hx hy = refl
  either (throws what) side a b go last x y k hx hy = refl
  either (error payload) side a b go last x y k hx hy = refl

  -- With more fuel than the height, a walk that decides as `left` does ends at the leaf of the row.
  pub walk-leaf_of :
      {B : Type 0} (step : ℤ → ℤ → Result ℤ) (left : Bool → Carrier → Carrier → Bool)
      (row : List Carrier) (tree : FlatTree Carrier) (k : Carrier → Result B)
      → Follows step left row tree
      → (s : Shape Carrier) (fuel : ℕ) → height_of s < fuel
      → Encodes tree s
      → (walk T is_nan step tree fuel (pos (root_of s)) >>= λ n. at_int tree.leaf_value n >>= k)
        ≡ (leaf_of left row s >>= k)
  unfolding walk leaf_of root_of height_of Encodes is_negative
  walk-leaf_of step left row tree k f s zero h e = absurd (omega arith)
  walk-leaf_of step left row tree k f (leaf_at i v) (suc fuel) h e = rw (e.0.1, e.1) refl
  walk-leaf_of step left row tree k f (split_at i feat thr d l r) (suc fuel) h e =
      let (hf, ht, hl, hr, hd, el, er) = e in
      let here = f i feat thr d l r e in
      let on_left = walk-leaf_of step left row tree k f l fuel (omega arith) el in
      let on_right = walk-leaf_of step left row tree k f r fuel (omega arith) er in
      rw (hf, here)
        (either (at_int row (pos feat)) (λ x. left d x thr) (pos (root_of l)) (pos (root_of r))
          (walk T is_nan step tree fuel) (λ n. at_int tree.leaf_value n >>= k) (leaf_of left row l)
          (leaf_of left row r) k on_left on_right)

  -- How the walks choose a side: without a test for NaN, and with it.
  abbrev pub left_plain : (Carrier → Carrier → Bool) → Bool → Carrier → Carrier → Bool
  left_plain cmp d x thr = cmp x thr

  abbrev pub left_nan : Bool → Carrier → Carrier → Bool
  left_nan d x thr = if is_nan x then d else lt x thr

  pub below-Follows :
      (row : List Carrier) (tree : FlatTree Carrier)
      → Follows (step_nonan T is_nan (below T is_nan) tree row) (left_plain lt) row tree
  unfolding step_nonan below Encodes
  below-Follows row tree i feat thr d l r (hf, ht, hl, hr, hd, el, er) =
      rw ht (>>=-cong (at_int row (pos feat)) _ _ (λ x. ground (arith, ht, hl, hr, hd)))

  pub at_most-Follows :
      (row : List Carrier) (tree : FlatTree Carrier)
      → Follows (step_nonan T is_nan (at_most T is_nan) tree row) (left_plain le) row tree
  unfolding step_nonan at_most Encodes
  at_most-Follows row tree i feat thr d l r (hf, ht, hl, hr, hd, el, er) =
      rw ht (>>=-cong (at_int row (pos feat)) _ _ (λ x. ground (arith, ht, hl, hr, hd)))

  pub default-Follows :
      (row : List Carrier) (tree : FlatTree Carrier)
      → Follows (step_default T is_nan (below T is_nan) tree row) left_nan row tree
  unfolding step_default below Encodes
  default-Follows row tree i feat thr d l r (hf, ht, hl, hr, hd, el, er) =
      rw ht (>>=-cong (at_int row (pos feat)) _ _ (λ x. ground (arith, ht, hl, hr, hd)))

  module _ (row : List Carrier) (tree : FlatTree Carrier) (s : Shape Carrier)
      (w : IsTree tree s) where
    enough : height_of s < fuel_of T is_nan tree
    enough = omega (arith, height-size s, w.counted)

    walk-IsTree :
        {B : Type 0} (step : ℤ → ℤ → Result ℤ) (left : Bool → Carrier → Carrier → Bool)
        (k : Carrier → Result B)
        → Follows step left row tree
        → (walk T is_nan step tree (fuel_of T is_nan tree) (pos 0) >>= λ n.
            at_int tree.leaf_value n >>= k)
          ≡ (leaf_of left row s >>= k)
    walk-IsTree step left k f =
        rw (← w.at_root)
          (walk-leaf_of step left row tree k f s (fuel_of T is_nan tree) enough w.encodes)

    -- On the arrays of a tree, traverse_one_lt ends at the leaf that the row reaches where NaN
    -- goes to the default side and any other value goes left below the threshold: its value is
    -- read, or the call is undefined where the row has no value for a feature on the way.
    pub traverse_one_lt-leaf_of :
        {B : Type 0} (k : Carrier → Result B)
        → (traverse_one_lt T is_nan tree row >>= λ n. at_int tree.leaf_value n >>= k)
          ≡ (leaf_of left_nan row s >>= k)
    unfolding traverse_one_lt
    traverse_one_lt-leaf_of k =
        walk-IsTree (step_default T is_nan (below T is_nan) tree row) left_nan k
          (default-Follows row tree)

    pub traverse_one_lt_nonan-leaf_of :
        {B : Type 0} (k : Carrier → Result B)
        → (traverse_one_lt_nonan T is_nan tree row >>= λ n. at_int tree.leaf_value n >>= k)
          ≡ (leaf_of (left_plain lt) row s >>= k)
    unfolding traverse_one_lt_nonan
    traverse_one_lt_nonan-leaf_of k =
        walk-IsTree (step_nonan T is_nan (below T is_nan) tree row) (left_plain lt) k
          (below-Follows row tree)

    pub traverse_one_le_nonan-leaf_of :
        {B : Type 0} (k : Carrier → Result B)
        → (traverse_one_le_nonan T is_nan tree row >>= λ n. at_int tree.leaf_value n >>= k)
          ≡ (leaf_of (left_plain le) row s >>= k)
    unfolding traverse_one_le_nonan
    traverse_one_le_nonan-leaf_of k =
        walk-IsTree (step_nonan T is_nan (at_most T is_nan) tree row) (left_plain le) k
          (at_most-Follows row tree)
