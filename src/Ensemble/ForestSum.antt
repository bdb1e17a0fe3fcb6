-- ===== src/Ensemble/ForestSum.antt =====
-- src/nodes/tree_ensemble_node.cpp: traverse_forest_n1 on the forest of build_flat_forest, against the loop
-- over the trees.
use omle_runtime.Prelude.{
  ℕ, suc, ◌+◌, ◌≡◌, refl, sym, ◌∙◌, ap, arith, Bool, true, false, not, if◌then◌else◌, ◌&&◌, ◌||◌,
  ◌⊎◌, inl, inr, Option, some, List, [], ◌∷◌, ◌++◌, map, length, ◌<◌, ◌≤◌, get_elem?,
  get_elem?-append, get_elem?-append_right, All, ltb, ◌==◌, length-append,
}
use omle_runtime.Prelude.Int.{pos}
use omle_runtime.Floats.{Floats, Float}
use omle_runtime.Status.{
  Result, ok, tabulate, fold_range, ◌>>=◌, >>=-eq-ok, >>=-assoc, >>=-cong, ok-injective,
  length-tabulate,
}
use omle_runtime.ValueStore.{ValueStore}
use omle_runtime.Ensemble.{AosNode, FlatTree, TreeEnsembleModel, at_int}
use omle_runtime.Ensemble.Forest.{
  drop_aos, flat_node, flat_nodes, fits, all_fit, root_offsets, tree_classes, class_of,
}
use omle_runtime.Ensemble.Walks.{compare_by, ff_steps, add_trees, add_at}
use omle_runtime.Ensemble.Single.{traverse_single, single_nonan, grouped_tree}
use omle_runtime.Ensemble.Shapes.{
  Shape, leaf_at, split_at, root_of, height_of, leaf_of, Encodes, IsTree,
  traverse_one_lt_nonan-leaf_of, traverse_one_le_nonan-leaf_of,
}
use omle_runtime.Ensemble.Placed.{Copied, Copied→Placed, ff_steps-leaf_of}

module _ {A : Type 0} where
  leaf_of-flat :
      (f g : Bool → A → A → Bool) (row : List A) (s : Shape A)
      → height_of s ≡ 0
      → leaf_of f row s ≡ leaf_of g row s
  unfolding leaf_of height_of
  leaf_of-flat f g row (leaf_at i v) h = refl
  leaf_of-flat f g row (split_at i feat thr d l r) h = absurd (omega arith)

module _ ⦃fl : Floats⦄ {A : Type 0} where
  -- A tree as the loader makes it: only a tree without splits has both flags.
  pub record Grown (tree : FlatTree A) : Type 0 where
    pub shape : Shape A
    pub is_tree : IsTree tree shape
    pub no_split : tree.all_less_than && tree.all_less_equal ≡ true → height_of shape ≡ 0

-- The ways in which a tree goes with a forest, from the truth of the test of all_fit.
fits-cases :
    (use_le complex single lt le : Bool)
    → (if complex || not single
        then false
        else if lt && le
        then true
        else if use_le
        then le
        else not le && lt)
      ≡ true
    → (complex ≡ false)
      × (single ≡ true)
      × ((le ≡ true) × ((lt ≡ true) ⊎ (use_le ≡ true))
          ⊎ (le ≡ false) × (lt ≡ true) × (use_le ≡ false))
fits-cases use_le true single lt le h = cc
fits-cases use_le false false lt le h = cc
fits-cases use_le false true true true h = (refl, refl, inl (refl, inl refl))
fits-cases true false true false true h = (refl, refl, inl (refl, inr refl))
fits-cases false false true false true h = cc
fits-cases true false true true false h = cc
fits-cases true false true false false h = cc
fits-cases false false true true false h = (refl, refl, inr (refl, refl, refl))
fits-cases false false true false false h = cc

module _ ⦃fl : Floats⦄ (T : Float) (is_nan : T.Carrier → Bool) (highest : T.Carrier) where
  open T use {Carrier, lt, le}

  -- Any walk of a tree without splits gives its one value.
  flat-le :
      (use_le : Bool) (tree : FlatTree Carrier) (row : List Carrier) (s : Shape Carrier)
      → (tree.all_less_than && tree.all_less_equal ≡ true → height_of s ≡ 0)
      → ((tree.all_less_than ≡ true) ⊎ (use_le ≡ true))
      → tree.all_less_equal ≡ true
      → leaf_of (λ d x thr. le x thr) row s ≡ leaf_of (λ d x thr. compare_by T use_le x thr) row s
  flat-le use_le tree row s flat (inl p) q =
      leaf_of-flat _ (λ d x thr. compare_by T use_le x thr) row s (flat (rw (p, q) refl))
  flat-le use_le tree row s flat (inr p) q = rw p refl

  -- A tree of a forest whose node records are dropped: traverse_single walks to the leaf of the row by
  -- the comparison of the forest.
  single-leaf_of :
      {B : Type 0} (use_le : Bool) (tree : FlatTree Carrier) (row : List Carrier)
      (vs : Option ValueStore) (k : Carrier → Result B)
      → (s : Shape Carrier) → IsTree tree s
      → (tree.all_less_than && tree.all_less_equal ≡ true → height_of s ≡ 0)
      → fits T use_le tree ≡ true
      → tree.aos_nodes ≡ []
      → (traverse_single T is_nan highest tree row false vs >>= λ n. at_int tree.leaf_value n >>= k)
        ≡ (leaf_of (λ d x thr. compare_by T use_le x thr) row s >>= k)
  unfolding traverse_single single_nonan fits
  single-leaf_of use_le tree row vs k s w flat h e =
      let (c, n, how) =
        fits-cases use_le tree.has_complex (tree.leaf_width == 1) tree.all_less_than
          tree.all_less_equal h in
      elim how [
        | inl (q, p) ↦
            rw (c, e, q)
              (traverse_one_le_nonan-leaf_of T is_nan row tree s w k
                ∙ ap (λ v. v >>= k) (flat-le use_le tree row s flat p q))
        | inr (q, p, u) ↦ rw (c, e, q, p, u) (traverse_one_lt_nonan-leaf_of T is_nan row tree s w k)
      ]

  -- Encodes does not ask for the node records.
  Encodes-drop_aos :
      (tree : FlatTree Carrier) (s : Shape Carrier) → Encodes tree s → Encodes (drop_aos T tree) s
  unfolding Encodes
  Encodes-drop_aos tree (leaf_at i v) e = e
  Encodes-drop_aos tree (split_at i feat thr d l r) (hf, ht, hl, hr, hd, el, er) =
      (hf, ht, hl, hr, hd, Encodes-drop_aos tree l el, Encodes-drop_aos tree r er)

  IsTree-drop_aos :
      (tree : FlatTree Carrier) (s : Shape Carrier) → IsTree tree s → IsTree (drop_aos T tree) s
  IsTree-drop_aos tree s w = record {
    at_root = w.at_root;
    counted = w.counted;
    inside = w.inside;
    encodes = Encodes-drop_aos tree s w.encodes;
  }

  -- A tree adds the value of its leaf to the score of its class.
  grouped_tree-leaf_of :
      (model : TreeEnsembleModel Carrier) (use_le : Bool) (tree : FlatTree Carrier)
      (row : List Carrier) (vs : Option ValueStore) (t : ℕ) (out : List Carrier)
      → (g : Grown tree) → fits T use_le tree ≡ true
      → get_elem? model.trees t ≡ some (drop_aos T tree)
      → grouped_tree T is_nan highest model row false vs t out ≡ (
          leaf_of (λ d x thr. compare_by T use_le x thr) row g.shape >>= λ v.
          add_at T (class_of T model.tree_group t) v out)
  unfolding grouped_tree fits
  grouped_tree-leaf_of model use_le tree row vs t out g h e =
      let (c, w, how) =
        fits-cases use_le tree.has_complex (tree.leaf_width == 1) tree.all_less_than
          tree.all_less_equal h in
      let narrow : ltb 1 tree.leaf_width ≡ false = ground (arith, w) in
      rw (e, narrow)
        (single-leaf_of use_le (drop_aos T tree) row vs
          (λ v. add_at T (class_of T model.tree_group t) v out) g.shape
          (IsTree-drop_aos tree g.shape g.is_tree) g.no_split h refl)

  and_true : (a b : Bool) → a && b ≡ true → (a ≡ true) × (b ≡ true)
  and_true true b h = (refl, h)
  and_true false b h = cc

  -- The records of the first tree, and of those after it.
  flat_nodes-split :
      (tree : FlatTree Carrier) (trees : List (FlatTree Carrier)) (off : ℕ)
      (all nodes : List (AosNode Carrier))
      → flat_nodes T (tree ∷ trees) off ≡ ok nodes
      → ((i : ℕ) → i < length nodes → get_elem? all (off + i) ≡ get_elem? nodes i)
      → (first : List (AosNode Carrier)) × (rest : List (AosNode Carrier)) × Copied T tree off first
          all
        × (flat_nodes T trees (off + tree.n_nodes) ≡ ok rest)
        × ((i : ℕ) → i < length rest → get_elem? all (off + tree.n_nodes + i) ≡ get_elem? rest i)
  unfolding flat_nodes
  flat_nodes-split tree trees off all nodes h c =
      let (first, hf, h') =
        >>=-eq-ok (tabulate (flat_node T tree off) 0 tree.n_nodes)
          (λ nodes. flat_nodes T trees (off + tree.n_nodes) >>= λ rest. ok (nodes ++ rest)) h in
      let (rest, hr, h'') =
        >>=-eq-ok (flat_nodes T trees (off + tree.n_nodes)) (λ rest. ok (first ++ rest)) h' in
      let n = length-tabulate (flat_node T tree off) 0 tree.n_nodes hf in
      let e = ok-injective h'' in
      let total = ap length (sym e) ∙ length-append first rest in
      let here : (i : ℕ) → i < tree.n_nodes → get_elem? all (off + i) ≡ get_elem? first i = λ i b.
        c i (omega (arith, n, total))
        ∙ ap (λ ns. get_elem? ns i) (sym e)
        ∙ get_elem?-append first rest i (omega (arith, n)) in
      let later : (i : ℕ)
          → i < length rest
          → get_elem? all (off + tree.n_nodes + i) ≡ get_elem? rest i =
        λ i b.
          let z : off + tree.n_nodes + i ≡ off + (tree.n_nodes + i) = omega arith in
          ap (get_elem? all) z
          ∙ c (tree.n_nodes + i) (omega (arith, n, total))
          ∙ ap (λ ns. get_elem? ns (tree.n_nodes + i)) (sym e)
          ∙ get_elem?-append_right first rest tree.n_nodes i (tree.n_nodes + i) n refl in
      (first, rest, (hf, here), hr, later)

  module _ (model : TreeEnsembleModel Carrier) (use_le : Bool) (row : List Carrier)
      (vs : Option ValueStore) (all : List (AosNode Carrier)) (depth : ℕ) where
    -- From tree t on, with its nodes from index off on, the forest adds what the trees add.
    pub add_trees-grouped :
        (trees : List (FlatTree Carrier)) (t off : ℕ) (nodes : List (AosNode Carrier))
        (out : List Carrier)
        → flat_nodes T trees off ≡ ok nodes
        → ((i : ℕ) → i < length nodes → get_elem? all (off + i) ≡ get_elem? nodes i)
        → (g : All Grown trees)
        → All (λ tree. (s : Shape Carrier) → IsTree tree s → height_of s ≤ depth) trees
        → all_fit T use_le trees ≡ true
        → ((i : ℕ) → get_elem? model.trees (t + i) ≡ get_elem? (map (drop_aos T) trees) i)
        → add_trees T use_le all row depth
            (root_offsets T trees off)
            (tree_classes T model.tree_group trees t)
            out
          ≡ fold_range
              (λ t out. grouped_tree T is_nan highest model row false vs t out)
              t
              (length trees)
              out
    unfolding flat_nodes all_fit add_trees root_offsets tree_classes
    add_trees-grouped [] t off nodes out hn hc g hh hf he = refl
    add_trees-grouped (tree ∷ trees) t off nodes out hn hc g hh hf he =
        let (first, rest, copied, hr, later) = flat_nodes-split tree trees off all nodes hn hc in
        let (fit, fit_all) = and_true (fits T use_le tree) (all_fit T use_le trees) hf in
        let s = g.0.shape in
        let w = g.0.is_tree in
        let placed = Copied→Placed T tree off first all copied s w.encodes w.inside in
        let next =
          add_trees T use_le all row depth (root_offsets T trees (off + tree.n_nodes))
            (tree_classes T model.tree_group trees (suc t)) in
        let score = λ (v : Carrier). add_at T (class_of T model.tree_group t) v out in
        let walked =
          ff_steps-leaf_of T use_le all row off (λ v. score v >>= next) s depth (hh.0 s w) placed in
        let start : off + root_of s ≡ off = omega (arith, w.at_root) in
        let at_t : get_elem? model.trees t ≡ some (drop_aos T tree) =
          ap (get_elem? model.trees) (omega arith) ∙ he 0 in
        let after : (i : ℕ)
            → get_elem? model.trees (suc t + i) ≡ get_elem? (map (drop_aos T) trees) i =
          λ i. ap (get_elem? model.trees) (omega arith) ∙ he (suc i) in
        let step = grouped_tree-leaf_of model use_le tree row vs t out g.0 fit at_t in
        let rests = λ (out : List Carrier).
          add_trees-grouped trees (suc t) (off + tree.n_nodes) rest out hr later g.1 hh.1 fit_all
            after in
        let left = leaf_of (λ d x thr. compare_by T use_le x thr) row s in
        ap
          (λ c. ff_steps T use_le all row depth (pos c) >>= λ c.
            at_int all c >>= λ nd. score nd.threshold >>= next)
          (sym start)
        ∙ walked
        ∙ sym (>>=-assoc left score next)
        ∙ ap (λ c. c >>= next) (sym step)
        ∙ >>=-cong (grouped_tree T is_nan highest model row false vs t out) next _ rests
