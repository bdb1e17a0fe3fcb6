-- ===== src/Operators/Tokens.antt =====
-- src/operator_registry.cpp: rows of tokens as tensors of strings, and the operators of omle.text from
-- strings to strings.
use mathlib.Core.List.{flatten}
use omle_runtime.Prelude.{
  ℕ, zero, suc, ◌+◌, ◌-◌, max, Bool, true, false, Option, none, some, List, [], ◌∷◌, ◌++◌, String,
  str_append, map, length, take, replicate, leb, if◌then◌else◌, same, mem_name,
}
use omle_runtime.Prelude.Int.{ℤ, pos, negsuc}
use omle_runtime.Floats.{Floats}
use omle_runtime.Status.{Result, ok, undefined, fail, invalid_argument, tabulate, ◌>>=◌}
use omle_runtime.Tensor.{Tensor, is_string, str_at}
use omle_runtime.Tensor.Build.{strings}
use omle_runtime.ValueStore.{get_value, put}
use omle_runtime.Operators.{Operator, attr_b, attr_i, attr_s, resolve_t}
use omle_runtime.Operators.Gathered.{with_names}
use omle_runtime.Operators.Strings.{
  str_lowercase, str_trim, str_normalize_ws, str_replace_literal, words_from,
}

-- The non-empty ones.
unfoldable pub non_empty : List String → List String
non_empty [] = []
non_empty (s ∷ ss) = if same s "" then non_empty ss else s ∷ non_empty ss

-- The longest row.
unfoldable pub widest : List (List String) → ℕ
widest [] = 0
widest (row ∷ rows) = max (length row) (widest rows)

-- A row with "" behind its tokens.
unfoldable pub padded : ℕ → List String → List String
padded w row = row ++ replicate (w - length row) ""

module _ ⦃fl : Floats⦄ where
  -- row_tokens
  unfoldable pub row_tokens : Tensor → ℕ → Result (List String)
  unfolding str_at non_empty
  row_tokens t row = tabulate (str_at t row) 0 t.n_cols >>= λ ss. ok (non_empty ss)

  -- tokens_to_tensor
  unfoldable pub tokens_to_tensor : List (List String) → Tensor
  unfolding strings widest padded
  tokens_to_tensor rows =
      strings (length rows) (widest rows) (flatten (map (padded (widest rows)) rows))

  -- string_map
  unfoldable pub string_map : String → (String → String) → Operator
  unfolding get_value put is_string str_at strings
  string_map op_name fn ins outs attrs fns vs n_rows = with_names ins outs vs λ i o. do
    src ← get_value vs i
    let mapped =
        tabulate (λ r. tabulate (λ c. str_at src r c >>= λ s. ok (fn s)) 0 src.n_cols) 0 n_rows
    (if is_string src
        then (mapped >>= λ rows. ok (put o (strings n_rows src.n_cols (flatten rows)) vs))
        else fail invalid_argument
            (str_append "omle.text/" (str_append op_name ": input must be a string tensor")))

  -- op_lowercase
  unfoldable pub op_lowercase : Operator
  unfolding string_map str_lowercase
  op_lowercase = string_map "Lowercase" str_lowercase

  -- op_trim
  unfoldable pub op_trim : Operator
  unfolding string_map str_trim
  op_trim = string_map "Trim" str_trim

  -- op_normalize_whitespace
  unfoldable pub op_normalize_whitespace : Operator
  unfolding string_map str_normalize_ws
  op_normalize_whitespace = string_map "NormalizeWhitespace" str_normalize_ws

  -- op_string_replace
  unfoldable pub op_string_replace : Operator
  unfolding string_map str_replace_literal attr_s attr_b
  op_string_replace ins outs attrs fns vs n_rows =
      string_map "StringReplace"
        (str_replace_literal (attr_s attrs "old" "") (attr_s attrs "new" "")
          (attr_b attrs "replace_all" true))
        ins outs attrs fns vs n_rows

  -- The text of row r, lowered: empty where the tensor is not of strings.
  unfoldable pub lowered_text : Tensor → ℕ → Result String
  unfolding is_string str_at str_lowercase
  lowered_text src r =
      if is_string src then (str_at src r 0 >>= λ s. ok (str_lowercase s)) else ok ""

  -- op_tokenizer
  unfoldable pub op_tokenizer : Operator
  unfolding get_value put lowered_text words_from tokens_to_tensor
  op_tokenizer ins outs attrs fns vs n_rows = with_names ins outs vs λ i o. do
    src ← get_value vs i
    rows ← tabulate (λ r. lowered_text src r >>= λ s. ok (words_from "" s)) 0 n_rows
    ok (put o (tokens_to_tensor rows) vs)

  -- " " + each token
  spaced : List String → String
  spaced [] = ""
  spaced (s ∷ ss) = str_append " " (str_append s (spaced ss))

  joined : List String → String
  unfolding spaced
  joined [] = ""
  joined (s ∷ ss) = str_append s (spaced ss)

  -- The n-grams of the tokens, n positive; `left` tokens are not yet the start of one.
  unfoldable pub grams : ℕ → List String → List String
  unfolding joined
  grams n [] = []
  grams n (s ∷ ss) =
      if leb n (suc (length ss)) then joined (take n (s ∷ ss)) ∷ grams n ss else grams n ss

  -- The sizes from n on, `more` of them. A size that is not positive reads past the tokens.
  unfoldable pub grams_from : ℤ → ℕ → List String → Result (List String)
  unfolding grams
  grams_from n zero toks = ok []
  grams_from (negsuc n) (suc more) toks = undefined
  grams_from (pos zero) (suc more) toks = undefined
  grams_from (pos (suc n)) (suc more) toks =
      grams_from (pos (suc (suc n))) more toks >>= λ rest. ok (grams (suc n) toks ++ rest)

  -- How many integers there are from a to b.
  span : ℤ → ℤ → ℕ
  span (pos a) (pos b) = suc b - a
  span (pos a) (negsuc b) = 0
  span (negsuc a) (pos b) = suc a + suc b
  span (negsuc a) (negsuc b) = suc a - b

  -- op_ngram
  unfoldable pub op_ngram : Operator
  unfolding get_value put row_tokens attr_i span grams_from tokens_to_tensor
  op_ngram ins outs attrs fns vs n_rows = with_names ins outs vs λ i o. do
    src ← get_value vs i
    let n_min = attr_i attrs "n_min" (pos 2)
    let n_max = attr_i attrs "n_max" (pos 2)
    rows ← tabulate (λ r. row_tokens src r >>= grams_from n_min (span n_min n_max)) 0 n_rows
    ok (put o (tokens_to_tensor rows) vs)

  -- A word as the comparison with the stop words takes it.
  unfoldable pub stop_key : Bool → String → String
  unfolding str_lowercase
  stop_key case_sensitive s = if case_sensitive then s else str_lowercase s

  -- stop_set
  unfoldable pub stop_set : Bool → Option Tensor → List String
  unfolding stop_key non_empty is_string
  stop_set case_sensitive none = []
  stop_set case_sensitive (some t) =
      if is_string t then non_empty (map (stop_key case_sensitive) t.str_data) else []

  -- The tokens that are not stop words.
  unfoldable pub kept_tokens : Bool → List String → List String → List String
  unfolding stop_key mem_name
  kept_tokens case_sensitive stops [] = []
  kept_tokens case_sensitive stops (s ∷ ss) =
      let rest = kept_tokens case_sensitive stops ss in
      if mem_name (stop_key case_sensitive s) stops then rest else s ∷ rest

  -- op_stop_words_remover
  unfoldable pub op_stop_words_remover : Operator
  unfolding get_value put attr_b resolve_t stop_set row_tokens kept_tokens tokens_to_tensor
  op_stop_words_remover ins outs attrs fns vs n_rows = with_names ins outs vs λ i o. do
    let exact = attr_b attrs "case_sensitive" false
    stops ← resolve_t vs ins (length ins) attrs "stop_words"
    src ← get_value vs i
    rows ←
        tabulate (λ r. row_tokens src r >>= λ ts. ok (kept_tokens exact (stop_set exact stops) ts))
          0 n_rows
    ok (put o (tokens_to_tensor rows) vs)
