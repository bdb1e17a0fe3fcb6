-- ===== src/Ensemble/Labels.antt =====
-- src/nodes/tree_ensemble_node.cpp, src/nodes/naive_bayes_node.cpp: the label that the scores of a row
-- give.
use omle_runtime.Prelude.{ℕ, suc, ◌+◌, arith, ◌<◌, inl, inr, Bool-cases, List, [], ◌∷◌, length}
use omle_runtime.Floats.{Floats, Float}
use omle_runtime.Ensemble.Node.{max_element, arg_max}

module _ ⦃fl : Floats⦄ (T : Float) where
  open T use {Carrier, lt}

  max_element-lt :
      (xs : List Carrier) (i best : ℕ) (top : Carrier)
      → best < i
      → max_element T xs i best top < length xs + i
  unfolding max_element
  max_element-lt [] i best top h = omega arith
  max_element-lt (x ∷ xs) i best top h = elim (Bool-cases (lt top x)) [
    | inl e ↦ let found = max_element-lt xs (suc i) i x (omega arith) in rw e (omega (arith, found))
    | inr e ↦
        let found = max_element-lt xs (suc i) best top (omega arith) in rw e (omega (arith, found))
  ]

  -- The label of a row that has scores is the index of one of them, whatever the comparison
  -- answers, also for NaN.
  pub arg_max-lt : (row : List Carrier) → 0 < length row → arg_max T row < length row
  unfolding arg_max
  arg_max-lt [] h = absurd (omega arith)
  arg_max-lt (x ∷ xs) h = omega (arith, max_element-lt xs 1 0 x (omega arith))
