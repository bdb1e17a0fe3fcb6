-- ===== src/Nodes/NaiveBayes.antt =====
-- src/nodes/naive_bayes_node.cpp: the four naive Bayes models at one floating-point type. The factories
-- and Impl only hold the model.
use mathlib.Core.List.{flatten}
use omle_runtime.Prelude.{
  ℕ, ◌+◌, ◌*◌, Bool, true, false, ◌&&◌, Option, none, some, List, [], ◌∷◌, String, map, get_elem?,
  if◌then◌else◌,
}
use omle_runtime.Prelude.Int.{ℤ, pos, negsuc, ◌+ℤ◌, ◌*ℤ◌, leb_ℤ, ltb_ℤ}
use omle_runtime.Floats.{Floats, Float, log, exp, F32, F64}
use omle_runtime.Status.{Result, ok, defined, tabulate, fold_range, map_result, ◌>>=◌}
use omle_runtime.Tensor.{DataType, Cell, float_cell, elements}
use omle_runtime.ValueStore.{ValueStore, put}
use omle_runtime.ValueStore.Slots.{dense_of, gather_slots}
use omle_runtime.PostTransform.{apply_post_transform, softmax}
use omle_runtime.Ensemble.{at_int}
use omle_runtime.Ensemble.Node.{arg_max}
use omle_runtime.Executor.{GraphNode}

-- NaiveBayesVariant
pub data NaiveBayesVariant : Type 0 where
  gaussian multinomial bernoulli categorical : NaiveBayesVariant

module _ ⦃fl : Floats⦄ where
  open fl use {f32, f64}

  -- NaiveBayesModelT
  pub record NaiveBayesModel (A : Type 0) : Type 0 where
    pub variant : NaiveBayesVariant
    pub class_log_priors : List A
    pub means : List A
    pub variances : List A
    pub variance_epsilon : Option F64
    pub feature_log_prob : List A
    pub binarize_threshold : Option F64
    pub category_log_prob : List F32
    pub category_offset : List ℤ
    pub category_count : List ℤ
    pub n_classes : ℕ
    pub n_features : ℕ

  abbrev value_or : Option F64 → F64 → F64
  value_or none other = other
  value_or (some x) other = x

  -- At a type T, with the conversions between it and the others.
  module _ (T : Float) (from64 : F64 → T.Carrier) (from32 : F32 → T.Carrier)
      (to32 : T.Carrier → F32) where
    open T use {Carrier, literal, lt, add, sub, mul, div, math1, to_int}

    abbrev entry : List Carrier → ℕ → Result Carrier
    entry xs i = defined (get_elem? xs i)

    -- What feature f adds in gaussian_log_likelihoods_t.
    unfoldable pub gaussian_term : Carrier → Carrier → Carrier → Carrier → Carrier
    gaussian_term eps x mu var =
        let v = add var eps in
        let d = sub x mu in
        let norm =
          math1 log (mul (mul (literal (pos 2) 0) (literal (pos 314159265358979323846) 20)) v) in
        mul (literal (negsuc 4) 1) (add (div (mul d d) v) norm)

    unfoldable pub gaussian_log_likelihood :
        NaiveBayesModel Carrier → List Carrier → ℕ → ℕ → Result Carrier
    unfolding gaussian_term
    gaussian_log_likelihood model features r c =
        let eps = from64 (value_or model.variance_epsilon (f64.literal (pos 1) 9)) in
        let nf = model.n_features in
        fold_range
          (λ f ll. entry features (r * nf + f) >>= λ x. entry model.means (c * nf + f) >>= λ mu.
            entry model.variances (c * nf + f) >>= λ var. ok (add ll (gaussian_term eps x mu var)))
          0 nf (literal (pos 0) 0)

    -- What feature f adds in count_log_likelihoods_t, for the Bernoulli model.
    unfoldable pub bernoulli_term : Carrier → Carrier → Carrier → Carrier
    bernoulli_term bin_thresh x lp =
        let one = literal (pos 1) 0 in
        let xi = if lt bin_thresh x then one else literal (pos 0) 0 in
        let lp1m = math1 log (add (sub one (math1 exp lp)) (literal (pos 1) 9)) in
        add (mul xi lp) (mul (sub one xi) lp1m)

    -- count_log_likelihoods_t
    unfoldable pub count_log_likelihood :
        NaiveBayesModel Carrier → Bool → F64 → List Carrier → ℕ → ℕ → Result Carrier
    unfolding bernoulli_term
    count_log_likelihood model is_bernoulli binarize features r c =
        let nf = model.n_features in
        fold_range
          (λ f ll. entry features (r * nf + f) >>= λ x.
            entry model.feature_log_prob (c * nf + f) >>= λ lp.
            ok (add ll (if is_bernoulli then bernoulli_term (from64 binarize) x lp else mul x lp)))
          0 nf (literal (pos 0) 0)

    -- The table has one row for each class, as wide as all categories.
    unfoldable pub category_stride : NaiveBayesModel Carrier → Result ℤ
    category_stride model =
        fold_range (λ f n. defined (get_elem? model.category_count f) >>= λ k. ok (n +ℤ k)) 0
          model.n_features (pos 0)

    -- What the category of a value adds: nothing where it is out of range.
    unfoldable pub category_term : NaiveBayesModel Carrier → ℤ → ℕ → ℕ → Carrier → F32 → Result F32
    category_term model stride c f x ll =
        let cat = to_int true 32 x in
        defined (get_elem? model.category_count f) >>= λ count.
        if leb_ℤ (pos 0) cat && ltb_ℤ cat count
        then (defined (get_elem? model.category_offset f) >>= λ off.
            at_int model.category_log_prob (pos c *ℤ stride +ℤ off +ℤ cat) >>= λ p.
            ok (f32.add ll p))
        else ok ll

    -- categorical_log_likelihoods_t
    unfoldable pub categorical_log_likelihood :
        NaiveBayesModel Carrier → List Carrier → ℕ → ℕ → Result Carrier
    unfolding category_stride category_term at_int
    categorical_log_likelihood model features r c = do
      stride ← category_stride model
      ll ←
          fold_range
            (λ f ll. entry features (r * model.n_features + f) >>= λ x.
              category_term model stride c f x ll)
            0 model.n_features (f32.literal (pos 0) 0)
      ok (from32 ll)

    -- The switch over the variant, for row r and class c.
    unfoldable pub log_likelihood :
        NaiveBayesVariant → NaiveBayesModel Carrier → List Carrier → ℕ → ℕ → Result Carrier
    unfolding gaussian_log_likelihood count_log_likelihood categorical_log_likelihood
    log_likelihood gaussian model features r c = gaussian_log_likelihood model features r c
    log_likelihood multinomial model features r c =
        count_log_likelihood model false (f64.literal (pos 0) 0) features r c
    log_likelihood bernoulli model features r c =
        count_log_likelihood model true (value_or model.binarize_threshold (f64.literal (pos 0) 0))
          features r c
    log_likelihood categorical model features r c = categorical_log_likelihood model features r c

    -- The scores of a row: the likelihoods with the priors added.
    unfoldable pub posterior_row :
        NaiveBayesModel Carrier → List Carrier → ℕ → Result (List Carrier)
    unfolding log_likelihood
    posterior_row model features r =
        tabulate
          (λ c. log_likelihood model.variant model features r c >>= λ ll.
            entry model.class_log_priors c >>= λ prior. ok (add ll prior))
          0 model.n_classes

    -- compute: the label of each row, and the probabilities
    unfoldable pub compute_bayes :
        NaiveBayesModel Carrier → List Carrier → ℕ → Result (List F32 × List F32)
    unfolding posterior_row arg_max apply_post_transform
    compute_bayes model features n_rows = do
      rows ← tabulate (posterior_row model features) 0 n_rows
      prob ← apply_post_transform f32 (map to32 (flatten rows)) n_rows model.n_classes softmax
      ok (map (λ row. f32.of_int (pos (arg_max T row))) rows, prob)

  put_bayes : List String → ℕ → ℕ → List F32 → List F32 → ValueStore → ValueStore
  unfolding put
  put_bayes [] n_rows nc pred prob vs = vs
  put_bayes (y ∷ []) n_rows nc pred prob vs =
      put y (dense_of false n_rows 1 (map float_cell pred)) vs
  put_bayes (y ∷ p ∷ names) n_rows nc pred prob vs =
      put p (dense_of false n_rows nc (map float_cell prob))
        (put y (dense_of false n_rows 1 (map float_cell pred)) vs)

  -- NaiveBayesNode::execute, at the type of `read`
  unfoldable pub execute_bayes :
      (T : Float)
      → (F64 → T.Carrier)
      → (F32 → T.Carrier)
      → (T.Carrier → F32)
      → DataType
      → (Cell → Result T.Carrier)
      → NaiveBayesModel T.Carrier
      → List String
      → List String
      → GraphNode
  unfolding gather_slots elements compute_bayes put_bayes
  execute_bayes T from64 from32 to32 dtype read model in_names out_names fns vs n_rows = do
    t ← gather_slots vs in_names n_rows (some dtype)
    features ← map_result read (elements t)
    (pred, prob) ← compute_bayes T from64 from32 to32 model features n_rows
    ok (put_bayes out_names n_rows model.n_classes pred prob vs)
