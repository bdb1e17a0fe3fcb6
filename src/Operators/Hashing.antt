-- ===== src/Operators/Hashing.antt =====
-- src/operator_registry.cpp: the counts of HashingVectorizer stay within their row.
use omle_runtime.Prelude.{
  ℕ, zero, suc, ◌<◌, ◌≡◌, refl, arith, Bool, List, [], ◌∷◌, String, some, length, get_elem?, set,
  length-set,
}
use omle_runtime.Prelude.Int.{ℤ, pos, negsuc}
use omle_runtime.Floats.{Floats, F32}
use omle_runtime.Status.{ok, fold_list}
use omle_runtime.Operators.Murmur.{bucket_of, hash_bucket}
use omle_runtime.Operators.Text.{change_cell, bump, token_sign, hash_token}

bucket_of-lt : (h : ℤ) (n : ℕ) → bucket_of h (suc n) < suc n
unfolding bucket_of
bucket_of-lt (pos h) n = omega arith
bucket_of-lt (negsuc h) n = ground arith

hash_bucket-lt : (word : String) (n : ℕ) → hash_bucket word (suc n) < suc n
unfolding hash_bucket
hash_bucket-lt word n = bucket_of-lt _ n

present : {A : Type 0} (xs : List A) (i : ℕ) → i < length xs → (x : A) × (get_elem? xs i ≡ some x)
present [] i h = absurd (omega arith)
present (x ∷ xs) zero h = (x, refl)
present (x ∷ xs) (suc i) h = present xs i (omega arith)

module _ ⦃fl : Floats⦄ where
  change_cell-present :
      (f : F32 → F32) (i : ℕ) (row : List F32) (x : F32)
      → get_elem? row i ≡ some x
      → change_cell f i row ≡ ok (set row i (f x))
  unfolding change_cell
  change_cell-present f i row x h = rw h refl

  hash_token-total :
      (binary alternate : Bool) (n : ℕ) (tok : String) (row : List F32)
      → length row ≡ suc n
      → (row' : List F32) × (hash_token binary alternate (suc n) tok row ≡ ok row')
        × (length row' ≡ suc n)
  unfolding hash_token
  hash_token-total binary alternate n tok row e =
      let b = hash_bucket-lt tok n in
      let (x, p) = present row (hash_bucket tok (suc n)) (omega arith) in
      let f = bump binary (token_sign alternate tok) in
      (
        set row (hash_bucket tok (suc n)) (f x),
        change_cell-present f (hash_bucket tok (suc n)) row x p,
        rw (length-set row (hash_bucket tok (suc n)) (f x)) e,
      )

  -- HashingVectorizer counts any tokens into a row of its positive number of features and never
  -- reads or writes outside that row, which stays as long as it is.
  pub hash_token-in_row :
      (binary alternate : Bool) (n : ℕ) (toks : List String) (row : List F32)
      → length row ≡ suc n
      → (row' : List F32) × (fold_list (hash_token binary alternate (suc n)) toks row ≡ ok row')
        × (length row' ≡ suc n)
  hash_token-in_row binary alternate n [] row e = (row, refl, e)
  hash_token-in_row binary alternate n (tok ∷ toks) row e =
      let (mid, p, q) = hash_token-total binary alternate n tok row e in
      let (end, p', q') = hash_token-in_row binary alternate n toks mid q in (end, rw p p', q')
