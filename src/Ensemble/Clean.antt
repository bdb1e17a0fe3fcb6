-- ===== src/Ensemble/Clean.antt =====
-- src/nodes/tree_ensemble_node.cpp: scan_has_nan, and the walks that rely on it.
use omle_runtime.Prelude.{
  ℕ, zero, suc, ◌≡◌, refl, ◌∙◌, ap, arith, Bool, false, inl, inr, Bool-cases, Option-cases, some,
  List, [], ◌∷◌, length, ◌≤◌, get_elem?, if◌then◌else◌,
}
use omle_runtime.Prelude.Int.{ℤ, pos, negsuc}
use omle_runtime.Floats.{Floats, Float}
use omle_runtime.Status.{ok, ◌>>=◌, >>=-cong}
use omle_runtime.Ensemble.{
  FlatTree, at_int, is_negative, step_default, step_nonan, eval_split, below, walk, fuel_of, Test,
  traverse_one_lt, traverse_one_generic, traverse_one_lt_nonan, traverse_one_generic_nonan,
}
use omle_runtime.Ensemble.Single.{scan_has_nan}

module _ ⦃fl : Floats⦄ (T : Float) (is_nan : T.Carrier → Bool) (highest : T.Carrier) where
  open T use {Carrier, lt, le}

  scan_has_nan-clean :
      (row : List Carrier) (n i : ℕ) (x : Carrier)
      → scan_has_nan T is_nan highest row n ≡ ok false
      → length row ≤ n
      → get_elem? row i ≡ some x
      → is_nan x ≡ false
  unfolding scan_has_nan
  scan_has_nan-clean [] n i x h b e = cc
  scan_has_nan-clean (y ∷ row) zero i x h b e = absurd (omega arith)
  scan_has_nan-clean (y ∷ row) (suc n) zero x h b e = elim (Bool-cases (is_nan y)) [
    | inl p ↦ let bad = rw p at h in cc
    | inr p ↦ cc
  ]
  scan_has_nan-clean (y ∷ row) (suc n) (suc i) x h b e = elim (Bool-cases (is_nan y)) [
    | inl p ↦ let bad = rw p at h in cc
    | inr p ↦ scan_has_nan-clean row n i x (rw p at h) (omega arith) e
  ]

  module _ (tree : FlatTree Carrier) (row : List Carrier) (n : ℕ)
      (clean : scan_has_nan T is_nan highest row n ≡ ok false) (short : length row ≤ n) where
    step_default-nonan :
        (test : Test T is_nan) (node feat : ℤ)
        → step_default T is_nan test tree row node feat
          ≡ step_nonan T is_nan test tree row node feat
    unfolding step_default step_nonan at_int
    step_default-nonan test node (negsuc i) = refl
    step_default-nonan test node (pos i) = elim (Option-cases (get_elem? row i)) [
      | inl e ↦ rw e refl
      | inr (x, e) ↦ rw (e, scan_has_nan-clean row n i x clean short e) refl
    ]

    walk-nonan :
        (test : Test T is_nan) (fuel : ℕ) (node : ℤ)
        → walk T is_nan (step_default T is_nan test tree row) tree fuel node
          ≡ walk T is_nan (step_nonan T is_nan test tree row) tree fuel node
    unfolding walk
    walk-nonan test zero node = refl
    walk-nonan test (suc fuel) node =
        let plain = step_nonan T is_nan test tree row in
        >>=-cong (at_int tree.feature node) _ _ (λ feat.
          ap (λ c. if is_negative feat then ok node else c)
            (ap (λ c. c >>= walk T is_nan (step_default T is_nan test tree row) tree fuel)
                (step_default-nonan test node feat)
              ∙ >>=-cong (plain node feat) _ _ (walk-nonan test fuel)))

    -- On a row in which scan_has_nan finds no NaN, the walks with a test for NaN and those without
    -- it are the same, whatever the arrays hold.
    pub scan_has_nan-traverse :
        (traverse_one_lt T is_nan tree row ≡ traverse_one_lt_nonan T is_nan tree row)
        × (traverse_one_generic T is_nan tree row ≡ traverse_one_generic_nonan T is_nan tree row)
    unfolding traverse_one_lt traverse_one_generic traverse_one_lt_nonan traverse_one_generic_nonan
    scan_has_nan-traverse = (
      walk-nonan (below T is_nan) (fuel_of T is_nan tree) (pos 0),
      walk-nonan (eval_split T is_nan) (fuel_of T is_nan tree) (pos 0),
    )
