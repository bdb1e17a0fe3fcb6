-- ===== src/Operators/Builtin.antt =====
-- src/operator_registry.cpp: register_builtin_operators. The operators that are not modelled are a
-- parameter, by the name of their function, and so is std::stod.
use omle_runtime.Prelude.{ℕ, List, [], ◌∷◌, ◌++◌, String, Option}
use omle_runtime.Prelude.Int.{ℤ}
use omle_runtime.Floats.{Floats, F64}
use omle_runtime.Operators.{Operator}
use omle_runtime.Operators.Registry.{OperatorTable, register_all}
use omle_runtime.Operators.Core.{
  op_argmax, op_clip, op_concat, op_gather, op_identity, op_select_by_scores,
}
use omle_runtime.Operators.Columns.{op_cast, op_reshape, op_split, op_take_slots}
use omle_runtime.Operators.Choice.{
  op_compute, op_dense_to_sparse, op_derive, op_select, op_sparse_to_dense,
}
use omle_runtime.Operators.Reduce.{
  op_average, op_max, op_median, op_min, op_sum, op_weighted_average, op_weighted_median,
  op_weighted_sum,
}
use omle_runtime.Operators.Votes.{op_majority_vote, op_soft_vote, op_weighted_majority_vote}
use omle_runtime.Operators.Samme.{op_samme_vote}
use omle_runtime.Operators.Scalers.{
  op_max_abs_scaler, op_minmax_scaler, op_normalizer, op_robust_scaler, op_standard_scaler,
}
use omle_runtime.Operators.Binarizer.{op_binarizer}
use omle_runtime.Operators.Transforms.{op_power_transformer, op_quantile_transformer}
use omle_runtime.Operators.Buckets.{op_bucketizer, op_missing_indicator, op_simple_imputer}
use omle_runtime.Operators.Tokens.{
  op_lowercase, op_ngram, op_normalize_whitespace, op_stop_words_remover, op_string_replace,
  op_tokenizer, op_trim,
}
use omle_runtime.Operators.Text.{
  op_count_vectorizer, op_hashing_vectorizer, op_tfidf_transformer, op_word2vec,
}
use omle_runtime.Operators.Regex.{op_regex_replace, op_regex_tokenizer, RegexLibrary}
use omle_runtime.Operators.Encoders.{op_label_encoder, op_ordinal_encoder}
use omle_runtime.Operators.Target.{op_target_encoder}
use omle_runtime.Operators.Labels.{op_label_binarizer, op_multi_label_binarizer}
use omle_runtime.Operators.OneHot.{op_one_hot_encoder}
use omle_runtime.Operators.Powers.{op_polynomial_features}
use omle_runtime.Operators.Splines.{op_spline_transformer}
use omle_runtime.Operators.Discretizer.{op_discretize, op_norm_continuous}
use omle_runtime.Operators.Indicators.{op_map_values, op_norm_discrete}
use omle_runtime.Operators.Projections.{
  op_fast_ica, op_kernel_pca, op_lda, op_nmf, op_pca, op_truncated_svd,
}

module _ ⦃fl : Floats⦄ (others : String → Operator) (parse : String → Option F64) (fuel : ℕ)
    (order : ℕ → List (ℤ × ℕ) → List (ℤ × ℕ)) (weighted_order : ℕ → List (ℤ × F64) → List (ℤ × F64))
    (library : RegexLibrary) where
  -- The operators of omle.core, in the order in which they are registered.
  abbrev pub core_operators : List (String × String × Operator)
  core_operators =
      ("omle.core", "Identity", op_identity)
      ∷ ("omle.core", "Concat", op_concat)
      ∷ ("omle.core", "Gather", op_gather)
      ∷ ("omle.core", "Clip", op_clip)
      ∷ ("omle.core", "ArgMax", op_argmax)
      ∷ ("omle.core", "SelectByPrimarySecondaryScore", op_select_by_scores)
      ∷ ("omle.core", "Cast", op_cast)
      ∷ ("omle.core", "Reshape", op_reshape)
      ∷ ("omle.core", "Split", op_split)
      ∷ ("omle.core", "TakeSlots", op_take_slots)
      ∷ ("omle.core", "Derive", op_derive fuel)
      ∷ ("omle.core", "Select", op_select)
      ∷ ("omle.core", "SparseToDense", op_sparse_to_dense)
      ∷ ("omle.core", "DenseToSparse", op_dense_to_sparse)
      ∷ ("omle.core", "Sum", op_sum)
      ∷ ("omle.core", "Average", op_average)
      ∷ ("omle.core", "Min", op_min)
      ∷ ("omle.core", "Max", op_max)
      ∷ ("omle.core", "Median", op_median)
      ∷ ("omle.core", "WeightedSum", op_weighted_sum)
      ∷ ("omle.core", "WeightedAverage", op_weighted_average)
      ∷ ("omle.core", "WeightedMedian", op_weighted_median)
      ∷ ("omle.core", "MajorityVote", op_majority_vote order)
      ∷ ("omle.core", "WeightedMajorityVote", op_weighted_majority_vote weighted_order)
      ∷ ("omle.core", "SoftVote", op_soft_vote)
      ∷ ("omle.core", "SAMMEVote", op_samme_vote)
      ∷ []

  -- The operators of omle.feature, and older names of them, in the order in which they are registered.
  abbrev pub feature_operators : List (String × String × Operator)
  feature_operators =
      ("omle.feature", "StandardScaler", op_standard_scaler)
      ∷ ("omle.feature", "MinMaxScaler", op_minmax_scaler)
      ∷ ("omle.feature", "RobustScaler", op_robust_scaler)
      ∷ ("omle.feature", "MaxAbsScaler", op_max_abs_scaler)
      ∷ ("omle.feature", "Normalizer", op_normalizer)
      ∷ ("omle.feature", "PowerTransformer", op_power_transformer)
      ∷ ("omle.feature", "QuantileTransformer", op_quantile_transformer)
      ∷ ("omle.feature", "SplineTransformer", op_spline_transformer)
      ∷ ("omle.feature", "PolynomialFeatures", op_polynomial_features)
      ∷ ("omle.feature", "Binarizer", op_binarizer)
      ∷ ("omle.feature", "Bucketizer", op_bucketizer)
      ∷ ("omle.feature", "Discretizer", op_discretize)
      ∷ ("omle.feature", "Imputer", op_simple_imputer)
      ∷ ("omle.feature", "KNNImputer", others "op_knn_imputer")
      ∷ ("omle.feature", "MissingIndicator", op_missing_indicator)
      ∷ ("omle.feature", "OneHotEncoder", op_one_hot_encoder)
      ∷ ("omle.feature", "OrdinalEncoder", op_ordinal_encoder parse)
      ∷ ("omle.feature", "LabelEncoder", op_label_encoder parse)
      ∷ ("omle.feature", "LabelBinarizer", op_label_binarizer)
      ∷ ("omle.feature", "MultiLabelBinarizer", op_multi_label_binarizer)
      ∷ ("omle.feature", "TargetEncoder", op_target_encoder parse)
      ∷ ("omle.feature", "NormContinuous", op_norm_continuous)
      ∷ ("omle.feature", "NormDiscrete", op_norm_discrete)
      ∷ ("omle.feature", "MapValues", op_map_values)
      ∷ ("omle.feature", "TruncatedSVD", op_truncated_svd)
      ∷ ("omle.feature", "FastICA", op_fast_ica)
      ∷ ("omle.feature", "FactorAnalysis", others "op_factor_analysis")
      ∷ ("omle.feature", "PCA", op_pca)
      ∷ ("omle.feature", "KernelPCA", op_kernel_pca)
      ∷ ("omle.feature", "SparsePCA", op_pca)
      ∷ ("omle.feature", "NMF", op_nmf)
      ∷ ("omle.feature", "LatentDirichletAllocation", op_lda)
      ∷ ("omle.feature", "Binarize", op_binarizer)
      ∷ ("omle.feature", "Discretize", op_discretize)
      ∷ ("omle.feature", "Impute", op_simple_imputer)
      ∷ ("omle.feature", "SimpleImputer", op_simple_imputer)
      ∷ ("omle.feature", "LabelEncode", op_label_encoder parse)
      ∷ ("omle.feature", "OneHotEncode", op_one_hot_encoder)
      ∷ []

  -- The operators of omle.ml, in the order in which they are registered.
  abbrev pub ml_operators : List (String × String × Operator)
  ml_operators = ("omle.ml", "KNN", others "op_knn") ∷ []

  -- The operators of omle.text, in the order in which they are registered.
  abbrev pub text_operators : List (String × String × Operator)
  text_operators =
      ("omle.text", "Lowercase", op_lowercase)
      ∷ ("omle.text", "Trim", op_trim)
      ∷ ("omle.text", "NormalizeWhitespace", op_normalize_whitespace)
      ∷ ("omle.text", "StringReplace", op_string_replace)
      ∷ ("omle.text", "RegexReplace", op_regex_replace library)
      ∷ ("omle.text", "Tokenizer", op_tokenizer)
      ∷ ("omle.text", "RegexTokenizer", op_regex_tokenizer library)
      ∷ ("omle.text", "NGram", op_ngram)
      ∷ ("omle.text", "StopWordsRemover", op_stop_words_remover)
      ∷ ("omle.text", "CountVectorizer", op_count_vectorizer)
      ∷ ("omle.text", "HashingVectorizer", op_hashing_vectorizer)
      ∷ ("omle.text", "TfIdfTransformer", op_tfidf_transformer)
      ∷ ("omle.text", "Word2Vec", op_word2vec)
      ∷ []

  -- register_builtin_operators, on an empty table
  unfoldable pub builtin_operators : OperatorTable
  unfolding register_all op_compute
  builtin_operators =
      register_all
        (core_operators
          ++ feature_operators
          ++ ml_operators
          ++ text_operators
          ++ (("omle.functions", "Compute", op_compute fuel) ∷ []))
        []
