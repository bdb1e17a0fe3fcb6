-- ===== src/PostTransform.antt =====
-- src/post_transform.h: apply_post_transform, at float or at double.
pub mod RowLocal
use omle_runtime.Prelude.{
  ℕ, zero, suc, ◌+◌, ◌*◌, ◌≡◌, Bool, true, false, List, [], ◌∷◌, ◌++◌, map, foldl, Option, none,
  some, if◌then◌else◌,
}
use omle_runtime.Prelude.Int.{ℤ, pos, negsuc}
use omle_runtime.Floats.{Float, Math1, exp, sqrt, log, atan}
use omle_runtime.Status.{Result, ok, undefined, ◌>>=◌}

-- PostTransform (src/model_base.h)
pub data PostTransform : Type 0 where
  identity sigmoid softmax exp_ logit probit c_log_log cauchit log_log sigmoid_binary :
      PostTransform

-- The first n of the scores, and the rest.
unfoldable pub split_row {ℓ} : {A : Type ℓ} → ℕ → List A → Result (List A × List A)
split_row zero xs = ok ([], xs)
split_row (suc n) [] = undefined
split_row (suc n) (x ∷ xs) = split_row n xs >>= λ p. ok (x ∷ p.0, p.1)

module _ (f : Float) where
  open f use {Carrier, literal, lt, add, sub, mul, div, neg, math1}

  abbrev one : Carrier
  one = literal (pos 1) 0

  -- T(1) / (T(1) + std::exp(-x))
  abbrev pub sigmoid_of : Carrier → Carrier
  sigmoid_of x = div one (add one (math1 exp (neg x)))

  -- std::max(a, b), std::min(a, b)
  abbrev larger : Carrier → Carrier → Carrier
  larger a b = if lt a b then b else a

  abbrev smaller : Carrier → Carrier → Carrier
  smaller a b = if lt b a then b else a

  -- The rational approximation of the Probit branch, with the clipped score.
  abbrev pub probit_of : Carrier → Carrier
  probit_of x =
      let eps = literal (pos 1) 7 in
      let p = larger eps (smaller (sub one eps) x) in
      let sgn = if lt p (literal (pos 5) 1) then literal (negsuc 0) 0 else one in
      let t = math1 sqrt (mul (literal (negsuc 1) 0) (math1 log (smaller p (sub one p)))) in
      let num =
        add (add (literal (pos 2515517) 6) (mul (literal (pos 802853) 6) t))
          (mul (mul (literal (pos 10328) 6) t) t) in
      let den =
        add
          (add (add one (mul (literal (pos 1432788) 6) t)) (mul (mul (literal (pos 189269) 6) t) t))
          (mul (mul (mul (literal (pos 1308) 6) t) t) t) in
      mul sgn (sub t (div num den))

  -- The branches whose loop treats one score at a time.
  unfoldable pub pointwise : PostTransform → Carrier → Carrier
  pointwise sigmoid x = sigmoid_of x
  pointwise exp_ x = math1 exp x
  pointwise logit x = sigmoid_of x
  pointwise probit x = probit_of x
  pointwise c_log_log x = sub one (math1 exp (neg (math1 exp x)))
  pointwise cauchit x = add (literal (pos 5) 1) (mul (math1 atan x) (literal (pos 318309886) 9))
  pointwise log_log x = math1 exp (neg (math1 exp (neg x)))
  pointwise _ x = x

  -- *std::max_element(row, row + n), the first of the largest
  abbrev max_element : Carrier → List Carrier → Carrier
  max_element x xs = foldl (λ best y. if lt best y then y else best) x xs

  -- One row of the Softmax branch; on an empty row the source reads past it.
  unfoldable pub softmax_row : List Carrier → Result (List Carrier)
  softmax_row [] = undefined
  softmax_row (x ∷ xs) =
      let mx = max_element x xs in
      let es = map (λ y. math1 exp (sub y mx)) (x ∷ xs) in
      let inv = div one (foldl add (literal (pos 0) 0) es) in ok (map (λ e. mul e inv) es)

  -- One row of the SigmoidBinary branch: two scores, of which the first counts.
  unfoldable pub binary_row : List Carrier → Result (List Carrier)
  binary_row (x ∷ y ∷ []) = let p = sigmoid_of x in ok (sub one p ∷ p ∷ [])
  binary_row _ = undefined

  -- for (int s = 0; s < n_samples; ++s), on rows of `width` scores
  unfoldable pub each_row :
      (List Carrier → Result (List Carrier)) → ℕ → ℕ → List Carrier → Result (List Carrier)
  each_row step width zero scores = ok scores
  each_row step width (suc n) scores = split_row width scores >>= λ p.
      step p.0 >>= λ row. each_row step width n p.1 >>= λ rest. ok (row ++ rest)

  -- for (int i = 0; i < total; ++i) on the first `total` scores
  unfoldable pub each_score : (Carrier → Carrier) → ℕ → List Carrier → Result (List Carrier)
  each_score step zero scores = ok scores
  each_score step (suc n) [] = undefined
  each_score step (suc n) (x ∷ xs) = each_score step n xs >>= λ ys. ok (step x ∷ ys)

  -- apply_post_transform. SigmoidBinary is written for n_outputs = 2, and uses rows of two.
  unfoldable pub apply_post_transform : List Carrier → ℕ → ℕ → PostTransform → Result (List Carrier)
  apply_post_transform scores n_samples n_outputs identity = ok scores
  apply_post_transform scores n_samples n_outputs softmax =
      each_row softmax_row n_outputs n_samples scores
  apply_post_transform scores n_samples n_outputs sigmoid_binary =
      each_row binary_row 2 n_samples scores
  apply_post_transform scores n_samples n_outputs pt =
      each_score (pointwise pt) (n_samples * n_outputs) scores
