-- ===== src/Ensemble/Placed.antt =====
-- src/nodes/tree_ensemble_node.cpp: the node records that build_flat_forest makes of a tree, and the leaf
-- that the walks over them end at.
use omle_runtime.Prelude.{
  ℕ, zero, suc, ◌+◌, ◌≡◌, refl, sym, ◌∙◌, ap, arith, Bool, false, some, List, ◌∷◌, ◌<◌, ◌≤◌,
  get_elem?,
}
use omle_runtime.Prelude.Int.{ℤ, pos, negsuc, pos-add}
use omle_runtime.Floats.{Floats, Float}
use omle_runtime.Status.{Result, ok, tabulate, ◌>>=◌, >>=-eq-ok, ok-injective}
use omle_runtime.Ensemble.{AosNode, FlatTree, at_int, is_negative}
use omle_runtime.Ensemble.Forest.{flat_node}
use omle_runtime.Ensemble.Walks.{compare_by, ff_step, ff_steps}
use omle_runtime.Ensemble.Shapes.{
  Shape, leaf_at, split_at, root_of, height_of, leaf_of, Within, Encodes, either,
}

-- The entries of a list that a loop has filled.
pub get_elem?-tabulate {ℓ} :
    {B : Type ℓ} (f : ℕ → Result B) (start n i : ℕ) {ys : List B} {y : B}
    → tabulate f start n ≡ ok ys
    → i < n
    → f (start + i) ≡ ok y
    → get_elem? ys i ≡ some y
get_elem?-tabulate f start zero i h b e = absurd (omega arith)
get_elem?-tabulate f start (suc n) zero h b e =
    let (y', e', h') =
      >>=-eq-ok (f start) (λ y. tabulate f (suc start) n >>= λ ys. ok (y ∷ ys)) h in
    let (ys', e'', h'') = >>=-eq-ok (tabulate f (suc start) n) (λ ys. ok (y' ∷ ys)) h' in
    let z : start + 0 ≡ start = omega arith in
    let q = ok-injective (sym e' ∙ ap f (sym z) ∙ e) in rw (← ok-injective h'') (ap some q)
get_elem?-tabulate f start (suc n) (suc i) h b e =
    let (y', e', h') =
      >>=-eq-ok (f start) (λ y. tabulate f (suc start) n >>= λ ys. ok (y ∷ ys)) h in
    let (ys', e'', h'') = >>=-eq-ok (tabulate f (suc start) n) (λ ys. ok (y' ∷ ys)) h' in
    let z : start + suc i ≡ suc start + i = omega arith in
    rw (← ok-injective h'')
      (get_elem?-tabulate f (suc start) n i e'' (omega arith) (ap f (sym z) ∙ e))

module _ {A : Type 0} where
  -- The records hold the nodes of the shape, from index off on; a leaf's has its value.
  unfoldable pub Placed : List (AosNode A) → ℕ → Shape A → Type 0
  Placed nodes off (leaf_at i v) =
      (nd : AosNode A) × (k : ℕ) × (at_int nodes (pos (off + i)) ≡ ok nd)
      × (nd.feature ≡ negsuc k)
      × (nd.threshold ≡ v)
  Placed nodes off (split_at i feat thr d l r) =
      (at_int nodes (pos (off + i))
        ≡ ok (record {
          feature = pos feat;
          threshold = thr;
          left = pos (off + root_of l);
          right = pos (off + root_of r);
        }))
      × Placed nodes off l
      × Placed nodes off r

module _ ⦃fl : Floats⦄ (T : Float) where
  open T use {Carrier, lt, le}

  ff_steps-leaf :
      (use_le : Bool) (nodes : List (AosNode Carrier)) (row : List Carrier) (d : ℕ) (c : ℤ)
      (nd : AosNode Carrier) (k : ℕ)
      → at_int nodes c ≡ ok nd
      → nd.feature ≡ negsuc k
      → ff_steps T use_le nodes row d c ≡ ok c
  unfolding ff_steps ff_step is_negative
  ff_steps-leaf use_le nodes row zero c nd k h e = refl
  ff_steps-leaf use_le nodes row (suc d) c nd k h e =
      rw (h, e) (ff_steps-leaf use_le nodes row d c nd k h e)

  -- In as many rounds as the tree is high, or more, the walk of traverse_forest_n1 reaches the leaf of
  -- the row.
  pub ff_steps-leaf_of :
      {B : Type 0} (use_le : Bool) (nodes : List (AosNode Carrier)) (row : List Carrier) (off : ℕ)
      (k : Carrier → Result B) (s : Shape Carrier) (depth : ℕ)
      → height_of s ≤ depth
      → Placed nodes off s
      → (ff_steps T use_le nodes row depth (pos (off + root_of s)) >>= λ c.
          at_int nodes c >>= λ nd. k nd.threshold)
        ≡ (leaf_of (λ d x thr. compare_by T use_le x thr) row s >>= k)
  unfolding leaf_of root_of height_of Placed ff_steps ff_step is_negative
  ff_steps-leaf_of use_le nodes row off k (leaf_at i v) depth h (nd, j, e, ef, ev) =
      rw (ff_steps-leaf use_le nodes row depth (pos (off + i)) nd j e ef, e, ev) refl
  ff_steps-leaf_of use_le nodes row off k (split_at i feat thr d l r) zero h p =
      absurd (omega arith)
  ff_steps-leaf_of use_le nodes row off k (split_at i feat thr d l r) (suc depth) h (e, pl, pr) =
      let on_left = ff_steps-leaf_of use_le nodes row off k l depth (omega arith) pl in
      let on_right = ff_steps-leaf_of use_le nodes row off k r depth (omega arith) pr in
      rw e (
        either T (λ x. false) (at_int row (pos feat)) (λ x. compare_by T use_le x thr)
          (pos (off + root_of l)) (pos (off + root_of r)) (ff_steps T use_le nodes row depth)
          (λ c. at_int nodes c >>= λ nd. k nd.threshold)
          (leaf_of (λ d x thr. compare_by T use_le x thr) row l)
          (leaf_of (λ d x thr. compare_by T use_le x thr) row r) k on_left on_right)

  module _ (tree : FlatTree Carrier) (off : ℕ) (nodes all : List (AosNode Carrier)) where
    -- `all` holds the records of the tree from index off on.
    abbrev pub Copied : Type 0
    Copied =
        (tabulate (flat_node T tree off) 0 tree.n_nodes ≡ ok nodes)
        × ((i : ℕ) → i < tree.n_nodes → get_elem? all (off + i) ≡ get_elem? nodes i)

    at_int-Copied :
        Copied
        → (i : ℕ) (nd : AosNode Carrier) → i < tree.n_nodes
        → flat_node T tree off i ≡ ok nd
        → at_int all (pos (off + i)) ≡ ok nd
    unfolding at_int
    at_int-Copied (h, q) i nd b e =
        let z : 0 + i ≡ i = omega arith in
        let here =
          get_elem?-tabulate (flat_node T tree off) 0 tree.n_nodes i h b
            (ap (flat_node T tree off) z ∙ e) in
        rw (q i b, here) refl

    flat_node-split :
        (i feat l r : ℕ) (thr : Carrier)
        → at_int tree.feature (pos i) ≡ ok (pos feat)
        → at_int tree.threshold (pos i) ≡ ok thr
        → at_int tree.left_child (pos i) ≡ ok (pos l)
        → at_int tree.right_child (pos i) ≡ ok (pos r)
        → flat_node T tree off i
          ≡ ok (record {
            feature = pos feat;
            threshold = thr;
            left = pos (off + l);
            right = pos (off + r);
          })
    unfolding flat_node is_negative
    flat_node-split i feat l r thr hf ht hl hr =
        rw (hf, ht, hl, hr, pos-add l off, pos-add r off) refl

    flat_node-leaf :
        (i k : ℕ) (v : Carrier)
        → at_int tree.feature (pos i) ≡ ok (negsuc k)
        → at_int tree.leaf_value (pos i) ≡ ok v
        → flat_node T tree off i
          ≡ ok (record {
            feature = negsuc k;
            threshold = v;
            left = pos (off + i);
            right = pos (off + i);
          })
    unfolding flat_node is_negative
    flat_node-leaf i k v hf hv = rw (hf, hv) refl

    pub Copied→Placed :
        Copied → (s : Shape Carrier) → Encodes tree s → Within tree.n_nodes s → Placed all off s
    unfolding Encodes Within Placed
    Copied→Placed c (leaf_at i v) ((k, hf), hv) b =
        (_, k, at_int-Copied c i _ b (flat_node-leaf i k v hf hv), refl, refl)
    Copied→Placed c (split_at i feat thr d l r) (hf, ht, hl, hr, hd, el, er) (b, bl, br) =
        let here = flat_node-split i feat (root_of l) (root_of r) thr hf ht hl hr in
        (at_int-Copied c i _ b here, Copied→Placed c l el bl, Copied→Placed c r er br)
