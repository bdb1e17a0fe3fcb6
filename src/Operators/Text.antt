-- ===== src/Operators/Text.antt =====
-- src/operator_registry.cpp, the domain omle.text: the operators from tokens to numbers, and those on
-- regular expressions, with std::regex as a parameter.
use omle_runtime.Prelude.{
  ℕ, zero, suc, ◌^◌, Bool, false, ◌&&◌, Option, none, some, List, [], ◌∷◌, String, Map, lookup,
  insert, map, length, get_elem?, set, replicate, ltb, if◌then◌else◌,
}
use omle_runtime.Prelude.Int.{ℤ, pos, negsuc, ltb_ℤ}
use omle_runtime.Floats.{Floats, F32, F64}
use omle_runtime.Status.{Result, ok, undefined, defined, fail, invalid_argument, ◌>>=◌, fold_list}
use omle_runtime.Tensor.{Tensor, float_cell, get, is_string, numel}
use omle_runtime.ValueStore.{ValueStore, get_value, put}
use omle_runtime.Operators.{
  Operator, attr_b, attr_i, resolve_t, resolve_t64, wants_f64, out_buf, out_rows,
}
use omle_runtime.Operators.Gathered.{with_names}
use omle_runtime.Operators.Murmur.{murmur3, bytes_of, hash_bucket}
use omle_runtime.Operators.Tokens.{row_tokens}

-- vocab_index: the last position of a word counts
unfoldable pub vocab_index : List String → ℕ → Map ℕ → Map ℕ
unfolding insert
vocab_index [] i index = index
vocab_index (s ∷ ss) i index = vocab_index ss (suc i) (insert s i index)

module _ ⦃fl : Floats⦄ where
  open fl use {f32, f64, narrow}

  -- cell = f(cell), in a row of the buffer
  unfoldable pub change_cell : (F32 → F32) → ℕ → List F32 → Result (List F32)
  change_cell f i row = defined (get_elem? row i) >>= λ old. ok (set row i (f old))

  -- `if (binary) cell = 1.f; else cell += x;`
  unfoldable pub bump : Bool → F32 → F32 → F32
  bump binary x old = if binary then f32.literal (pos 1) 0 else f32.add old x

  -- One token of a row of counts.
  unfoldable pub count_token : Bool → Map ℕ → String → List F32 → Result (List F32)
  unfolding lookup change_cell bump
  count_token binary index tok row = elim (lookup tok index) [
    | none ↦ ok row
    | some i ↦ change_cell (bump binary (f32.literal (pos 1) 0)) i row
  ]

  -- A tensor of floats from rows that start at zero and take the tokens one after another.
  unfoldable pub counted : (String → List F32 → Result (List F32)) → Tensor → ℕ → ℕ → Result Tensor
  unfolding row_tokens out_rows
  counted step src n_rows width = out_rows false n_rows width λ r. row_tokens src r >>= λ toks.
      fold_list step toks (replicate width (f32.literal (pos 0) 0)) >>= λ row.
      ok (map float_cell row)

  missing_vocabulary : Result ValueStore
  missing_vocabulary = fail invalid_argument "CountVectorizer: missing vocabulary"

  -- op_count_vectorizer, with its vocabulary
  unfoldable pub count_words :
      Option Tensor → Bool → String → String → ℕ → ValueStore → Result ValueStore
  unfolding get_value put vocab_index count_token counted is_string numel missing_vocabulary
  count_words none binary i o n_rows vs = missing_vocabulary
  count_words (some vocab) binary i o n_rows vs =
      let index = vocab_index vocab.str_data 0 [] in
      let result = get_value vs i >>= λ src.
      counted (count_token binary index) src n_rows (numel vocab) >>= λ t. ok (put o t vs) in
      if is_string vocab then result else missing_vocabulary

  -- op_count_vectorizer
  unfoldable pub op_count_vectorizer : Operator
  unfolding attr_b resolve_t count_words
  op_count_vectorizer ins outs attrs fns vs n_rows = with_names ins outs vs λ i o.
      resolve_t vs ins (length ins) attrs "vocabulary" >>= λ vocab.
      count_words vocab (attr_b attrs "binary" false) i o n_rows vs

  -- What a token adds to its bucket.
  unfoldable pub token_sign : Bool → String → F32
  unfolding murmur3 bytes_of
  token_sign alternate tok =
      if alternate && ltb_ℤ (murmur3 (bytes_of tok)) (pos 0)
      then f32.literal (negsuc 0) 0
      else f32.literal (pos 1) 0

  -- One token of a row of hashed counts.
  unfoldable pub hash_token : Bool → Bool → ℕ → String → List F32 → Result (List F32)
  unfolding hash_bucket token_sign change_cell bump
  hash_token binary alternate zero tok row = undefined
  hash_token binary alternate (suc n) tok row =
      change_cell (bump binary (token_sign alternate tok)) (hash_bucket tok (suc n)) row

  -- The number of features; the allocation for a negative one has no meaning.
  feature_count : ℤ → Result ℕ
  feature_count (pos n) = ok n
  feature_count (negsuc n) = undefined

  -- op_hashing_vectorizer
  unfoldable pub op_hashing_vectorizer : Operator
  unfolding get_value put attr_b attr_i feature_count hash_token counted
  op_hashing_vectorizer ins outs attrs fns vs n_rows = with_names ins outs vs λ i o. do
    src ← get_value vs i
    n ← feature_count (attr_i attrs "num_features" (pos (2 ^ 18)))
    t ←
        counted (hash_token (attr_b attrs "binary" false) (attr_b attrs "alternate_sign" false) n)
          src n_rows n
    ok (put o t vs)

  scale_counts : Option Tensor → String → String → ℕ → ValueStore → Result ValueStore
  unfolding get_value put get wants_f64 out_buf
  scale_counts none i o n_rows vs = fail invalid_argument "TfIdfTransformer: missing idf"
  scale_counts (some idf) i o n_rows vs = do
    src ← get_value vs i
    t ←
        out_buf (wants_f64 src) n_rows src.n_cols
          λ r c. get src r c >>= λ x. get idf 0 c >>= λ w. ok (f64.mul x w)
    ok (put o t vs)

  -- op_tfidf_transformer
  unfoldable pub op_tfidf_transformer : Operator
  unfolding resolve_t64 scale_counts
  op_tfidf_transformer ins outs attrs fns vs n_rows =
      with_names ins outs vs
        λ i o. resolve_t64 vs ins (length ins) attrs "idf" >>= λ idf. scale_counts idf i o n_rows vs

  -- acc[d] += emb_t->get(vocab_idx, d)
  unfoldable pub add_embedding : Tensor → ℕ → ℕ → List F64 → Result (List F64)
  unfolding get
  add_embedding emb k d [] = ok []
  add_embedding emb k d (x ∷ acc) =
      get emb k d >>= λ v. add_embedding emb k (suc d) acc >>= λ rest. ok (f64.add x v ∷ rest)

  -- One token of a document: the sum of the embeddings, and how many there are.
  unfoldable pub embed_token : Tensor → Map ℕ → String → List F64 × ℕ → Result (List F64 × ℕ)
  unfolding lookup add_embedding
  embed_token emb index tok (acc, n) = elim (lookup tok index) [
    | none ↦ ok (acc, n)
    | some k ↦ add_embedding emb k 0 acc >>= λ acc'. ok (acc', suc n)
  ]

  -- The mean of the embeddings, by the inverse of their number.
  unfoldable pub mean_of : List F64 × ℕ → List F32
  mean_of (acc, n) =
      let one = f64.literal (pos 1) 0 in
      let inv = if ltb 1 n then f64.div one (f64.of_int (pos n)) else one in
      map (λ x. narrow (f64.mul x inv)) acc

  missing_embeddings : Result ValueStore
  missing_embeddings = fail invalid_argument "Word2Vec: missing vocabulary or embeddings"

  unfoldable pub embed_documents :
      Option Tensor → Option Tensor → String → String → ℕ → ValueStore → Result ValueStore
  unfolding get_value put is_string vocab_index embed_token mean_of row_tokens out_rows
      missing_embeddings
  embed_documents (some vocab) (some emb) i o n_rows vs =
      let index = vocab_index vocab.str_data 0 [] in
      let start = replicate emb.n_cols (f64.literal (pos 0) 0) in
      let result = get_value vs i >>= λ src.
      out_rows false n_rows emb.n_cols (λ r. row_tokens src r >>= λ toks.
      fold_list (embed_token emb index) toks (start, 0) >>= λ s. ok (map float_cell (mean_of s)))
      >>= λ t. ok (put o t vs) in
      if is_string vocab then result else missing_embeddings
  embed_documents _ _ i o n_rows vs = missing_embeddings

  -- op_word2vec
  unfoldable pub op_word2vec : Operator
  unfolding resolve_t resolve_t64 embed_documents
  op_word2vec ins outs attrs fns vs n_rows = with_names ins outs vs λ i o. do
    vocab ← resolve_t vs ins (length ins) attrs "vocabulary"
    emb ← resolve_t64 vs ins (length ins) attrs "embeddings"
    embed_documents vocab emb i o n_rows vs
