-- ===== src/Ensemble/Depth.antt =====
-- src/nodes/tree_ensemble_node.cpp: detect_max_depth finds the height of a tree.
use omle_runtime.Prelude.{
  ℕ, zero, suc, ◌+◌, ◌≡◌, refl, sym, ◌∙◌, ap, arith, false, List, [], ◌∷◌, map, ◌≤◌, ◌==◌, max, All,
}
use omle_runtime.Prelude.Int.{ℤ, pos}
use omle_runtime.Floats.{Floats, Float}
use omle_runtime.Status.{ok, >>=-eq-ok, ok-injective}
use omle_runtime.Ensemble.{FlatTree, is_negative}
use omle_runtime.Ensemble.Forest.{max_depth_from, detect_max_depth, deepest}
use omle_runtime.Ensemble.Shapes.{
  Shape, leaf_at, split_at, root_of, size_of, height_of, height-size, Encodes, IsTree,
}

-- The subtrees that are on the stack, with their depths.
abbrev Frames : Type 0 → Type 0
Frames A = List (Shape A × ℕ)

module _ {A : Type 0} where
  abbrev to_stack : Frames A → List (ℤ × ℕ)
  to_stack = map (λ p. (pos (root_of p.0), p.1))

  unfoldable total : Frames A → ℕ
  total [] = 0
  total (p ∷ fs) = size_of p.0 + total fs

  unfoldable lowest : Frames A → ℕ → ℕ
  lowest [] m = m
  lowest (p ∷ fs) m = lowest fs (max m (p.1 + height_of p.0))

module _ ⦃fl : Floats⦄ (T : Float) where
  open T use {Carrier}

  max_depth_from-lowest :
      (tree : FlatTree Carrier) (fuel : ℕ) (fs : Frames Carrier) (m : ℕ)
      → total fs ≤ fuel
      → All (λ p. Encodes tree p.0) fs
      → max_depth_from T fuel tree (to_stack fs) m ≡ ok (lowest fs m)
  unfolding max_depth_from total lowest root_of size_of height_of Encodes is_negative
  max_depth_from-lowest tree fuel [] m h e = refl
  max_depth_from-lowest tree zero ((s, d) ∷ fs) m h e = absurd (omega (arith, height-size s))
  max_depth_from-lowest tree (suc fuel) ((leaf_at i v, d) ∷ fs) m h (((k, hf), hv), e) =
      let z : d + 0 ≡ d = omega arith in
      rw (hf, z) (max_depth_from-lowest tree fuel fs (max m d) (omega arith) e)
  max_depth_from-lowest tree (suc fuel) ((split_at i feat thr c l r, d) ∷ fs) m h
        ((hf, ht, hl, hr, hd, el, er), e) =
      let rest =
        max_depth_from-lowest tree fuel ((r, suc d) ∷ (l, suc d) ∷ fs) m (omega arith)
          (er, (el, e)) in
      let z : max (max m (suc d + height_of r)) (suc d + height_of l)
          ≡ max m (d + suc (max (height_of l) (height_of r))) =
        omega arith in
      rw (hf, hl, hr, ← z) rest

  -- On the arrays of a tree, with fuel for its nodes, the loop of detect_max_depth ends and
  -- returns the height of the tree.
  pub detect_max_depth-height :
      (tree : FlatTree Carrier) (s : Shape Carrier) (fuel : ℕ)
      → IsTree tree s
      → tree.n_nodes ≤ fuel
      → detect_max_depth T fuel tree ≡ ok (height_of s)
  unfolding detect_max_depth total lowest
  detect_max_depth-height tree s fuel w h =
      let some_node : tree.n_nodes == 0 ≡ false = ground (arith, height-size s, w.counted) in
      let found =
        max_depth_from-lowest tree fuel ((s, 0) ∷ []) 0 (omega (arith, w.counted))
          (w.encodes, tt) in
      let z : max 0 (0 + height_of s) ≡ height_of s = omega arith in
      let here = ap (λ r. max_depth_from T fuel tree ((pos r, 0) ∷ []) 0) (sym w.at_root) in
      rw some_node (here ∙ found ∙ ap ok z)

  -- Every tree of a forest is at most as high as the depth that is found for all.
  pub deepest-height :
      (trees : List (FlatTree Carrier)) (fuel d e : ℕ)
      → All (λ tree. tree.n_nodes ≤ fuel) trees
      → deepest T fuel trees d ≡ ok e
      → (d ≤ e) × All (λ tree. (s : Shape Carrier) → IsTree tree s → height_of s ≤ e) trees
  unfolding deepest
  deepest-height [] fuel d e w h = (omega (arith, ok-injective h), tt)
  deepest-height (tr ∷ trs) fuel d e w h =
      let (x, hx, h') =
        >>=-eq-ok (detect_max_depth T fuel tr) (λ x. deepest T fuel trs (max d x)) h in
      let (b, all) = deepest-height trs fuel (max d x) e w.1 h' in
      let here : (s : Shape Carrier) → IsTree tr s → height_of s ≤ e =
        λ s v. omega (arith, ok-injective (sym (detect_max_depth-height tr s fuel v w.0) ∙ hx)) in
      (omega arith, (here, all))
