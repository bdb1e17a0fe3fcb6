-- ===== src/PostTransform/RowLocal.antt =====
-- A post-transform treats each sample by itself: a batch can be cut between samples.
use omle_runtime.Prelude.{
  ℕ, zero, suc, ◌+◌, ◌*◌, ◌≤◌, ◌≡◌, refl, ap, List, [], ◌∷◌, ◌++◌, length, length-append, arith,
  ◌∙◌, sym,
}
use Prim.Native.Nat.add
use mathlib.Core.List.{append_assoc}
use native.Mathlib.Nat.{add-mul}
use omle_runtime.Floats.{Float}
use omle_runtime.Status.{Result, ok, error, throws, terminates, undefined, ◌>>=◌}
use omle_runtime.PostTransform.{
  PostTransform, identity, softmax, sigmoid_binary, split_row, pointwise, softmax_row, binary_row,
  each_row, each_score, apply_post_transform,
}

split_row-append {ℓ} :
    {A : Type ℓ} (n : ℕ) (xs : List A)
    → n ≤ length xs
    → (row : List A) × (rest : List A) × (xs ≡ row ++ rest)
      × (length row ≡ n)
      × (split_row n xs ≡ ok (row, rest))
      × ((ys : List A) → split_row n (xs ++ ys) ≡ ok (row, rest ++ ys))
unfolding split_row
split_row-append zero xs h = ([], xs, refl, refl, refl, λ ys. refl)
split_row-append (suc n) [] h = absurd (omega arith)
split_row-append (suc n) (x ∷ xs) h =
    let (row, rest, e, l, z, s) = split_row-append n xs (omega arith) in
    (x ∷ row, rest, ap (◌∷◌ x) e, ap suc l, rw z, λ ys. rw (s ys))

-- Two batches one after the other.
abbrev pub joined {ℓ} : {A : Type ℓ} → Result (List A) → Result (List A) → Result (List A)
joined r s = r >>= λ a. s >>= λ b. ok (a ++ b)

joined-cons {ℓ} :
    {A : Type ℓ} (row : List A) (r s : Result (List A))
    → (joined r s >>= λ c. ok (row ++ c)) ≡ joined (r >>= λ a. ok (row ++ a)) s
joined-cons row (ok a) (ok b) = ap ok (sym (append_assoc row a b))
joined-cons row (ok a) (error e) = refl
joined-cons row (ok a) (throws w) = refl
joined-cons row (ok a) terminates = refl
joined-cons row (ok a) undefined = refl
joined-cons row (error e) s = refl
joined-cons row (throws w) s = refl
joined-cons row terminates s = refl
joined-cons row undefined s = refl

nothing_before {ℓ} : {A : Type ℓ} (s : Result (List A)) → joined (ok []) s ≡ s
nothing_before (ok b) = refl
nothing_before (error e) = refl
nothing_before (throws w) = refl
nothing_before terminates = refl
nothing_before undefined = refl

module _ (f : Float) where
  open f use {Carrier}

  after_row :
      (r : Result (List Carrier)) (a b : Result (List Carrier))
      → (r >>= λ row. joined a b >>= λ c. ok (row ++ c))
        ≡ joined (r >>= λ row. a >>= λ c. ok (row ++ c)) b
  after_row (ok row) a b = joined-cons row a b
  after_row (error e) a b = refl
  after_row (throws w) a b = refl
  after_row terminates a b = refl
  after_row undefined a b = refl

  each_row-append :
      (step : List Carrier → Result (List Carrier)) (w m n : ℕ) (xs ys : List Carrier)
      → length xs ≡ m * w
      → each_row f step w (m + n) (xs ++ ys)
        ≡ joined (each_row f step w m xs) (each_row f step w n ys)
  unfolding each_row
  each_row-append step w zero n [] ys h =
      rw (add.zero n) (sym (nothing_before (each_row f step w n ys)))
  each_row-append step w zero n (x ∷ xs) ys h = absurd (omega arith)
  each_row-append step w (suc m) n xs ys h =
      let (row, rest, e, l, z, s) = split_row-append w xs (grind arith) in
      let len = ap length e ∙ length-append row rest in
      rw (add.suc m n, s ys, z, each_row-append step w m n rest ys (grind arith))
        (after_row (step row) (each_row f step w m rest) (each_row f step w n ys))

  each_score-append :
      (g : Carrier → Carrier) (m n : ℕ) (xs ys : List Carrier)
      → length xs ≡ m
      → each_score f g (m + n) (xs ++ ys) ≡ joined (each_score f g m xs) (each_score f g n ys)
  unfolding each_score
  each_score-append g zero n [] ys h = rw (add.zero n) (sym (nothing_before (each_score f g n ys)))
  each_score-append g zero n (x ∷ xs) ys h = absurd (omega arith)
  each_score-append g (suc m) n [] ys h = absurd (omega arith)
  each_score-append g (suc m) n (x ∷ xs) ys h =
      rw (add.suc m n, each_score-append g m n xs ys (omega arith))
        (joined-cons (g x ∷ []) (each_score f g m xs) (each_score f g n ys))

  -- The scores of `pt` are cut in rows of this width: by the branch's own loop, or by n_outputs.
  abbrev pub row_width : ℕ → PostTransform → ℕ
  row_width n_outputs sigmoid_binary = 2
  row_width n_outputs pt = n_outputs

  -- The post-transform of m and n samples one after the other is that of the m samples followed by
  -- that of the n samples, errors included, where the first list holds the scores of just m
  -- samples.
  pub apply_post_transform-append :
      (pt : PostTransform) (m n n_outputs : ℕ) (xs ys : List Carrier)
      → length xs ≡ m * row_width n_outputs pt
      → apply_post_transform f (xs ++ ys) (m + n) n_outputs pt
        ≡ joined
            (apply_post_transform f xs m n_outputs pt)
            (apply_post_transform f ys n n_outputs pt)
  unfolding apply_post_transform
  apply_post_transform-append identity m n k xs ys h = refl
  apply_post_transform-append softmax m n k xs ys h = each_row-append (softmax_row f) k m n xs ys h
  apply_post_transform-append sigmoid_binary m n k xs ys h =
      each_row-append (binary_row f) 2 m n xs ys h
  apply_post_transform-append pt m n k xs ys h =
      rw (add-mul m n k) (each_score-append (pointwise f pt) (m * k) (n * k) xs ys h)
