-- ===== src/Operators/Regex.antt =====
-- src/operator_registry.cpp, the domain omle.text: the operators on regular expressions. What <regex>
-- does is a parameter: to compile a pattern, to replace, to split and to find.
use omle_runtime.Prelude.{
  Bool, true, List, [], ◌∷◌, String, str_append, if◌then◌else◌, same, ◌⊎◌, inl, inr,
}
use Prim.Native.String.{len}
use omle_runtime.Prelude.Int.{ℤ, pos, leb_ℤ}
use omle_runtime.Floats.{Floats}
use omle_runtime.Status.{Result, ok, throws, fail, invalid_argument, tabulate, ◌>>=◌}
use omle_runtime.ValueStore.{get_value, put}
use omle_runtime.Operators.{Operator, attr_b, attr_i, attr_s}
use omle_runtime.Operators.Gathered.{with_names}
use omle_runtime.Operators.Tokens.{tokens_to_tensor, string_map, lowered_text}

-- <regex>: a pattern or the text of its std::regex_error; regex_replace; the parts between the
-- matches (sregex_token_iterator with -1) and the matches (sregex_iterator).
pub record RegexLibrary : Type 1 where
  pub Regex : Type 0
  pub compile : String → String ⊎ Regex
  pub regex_replace : Regex → String → String → String
  pub between : Regex → String → List String
  pub matches : Regex → String → List String

-- The tokens with at least so many bytes.
unfoldable pub long_tokens : ℤ → List String → List String
long_tokens min_len [] = []
long_tokens min_len (s ∷ ss) =
    let rest = long_tokens min_len ss in if leb_ℤ min_len (pos (len s)) then s ∷ rest else rest

module _ ⦃fl : Floats⦄ (library : RegexLibrary) where
  open library use {Regex, compile, regex_replace, between, matches}

  -- The tokens of a text, between the matches for `gaps`.
  unfoldable pub regex_tokens : Regex → Bool → ℤ → String → List String
  unfolding long_tokens
  regex_tokens re gaps min_len text =
      long_tokens min_len (if gaps then between re text else matches re text)

  replace_with : String ⊎ Regex → String → Operator
  unfolding string_map
  replace_with (inl what) rep ins outs attrs fns vs n_rows =
      fail invalid_argument (str_append "omle.text/RegexReplace: invalid pattern: " what)
  replace_with (inr re) rep ins outs attrs fns vs n_rows =
      string_map "RegexReplace" (λ s. regex_replace re s rep) ins outs attrs fns vs n_rows

  -- op_regex_replace
  unfoldable pub op_regex_replace : Operator
  unfolding attr_s replace_with
  op_regex_replace ins outs attrs fns vs n_rows =
      if same (attr_s attrs "pattern" "") ""
      then fail invalid_argument "omle.text/RegexReplace: pattern is required"
      else replace_with (compile (attr_s attrs "pattern" "")) (attr_s attrs "replacement" "") ins
          outs attrs fns vs n_rows

  -- std::regex re(pat), outside a try
  compiled : String ⊎ Regex → Result Regex
  compiled (inl what) = throws what
  compiled (inr re) = ok re

  -- op_regex_tokenizer
  unfoldable pub op_regex_tokenizer : Operator
  unfolding get_value put attr_s attr_b attr_i compiled lowered_text regex_tokens tokens_to_tensor
  op_regex_tokenizer ins outs attrs fns vs n_rows = with_names ins outs vs λ i o. do
    let gaps = attr_b attrs "gaps" true
    let min_len = attr_i attrs "min_token_length" (pos 1)
    src ← get_value vs i
    re ← compiled (compile (attr_s attrs "pattern" "\\s+"))
    rows ← tabulate (λ r. lowered_text src r >>= λ s. ok (regex_tokens re gaps min_len s)) 0 n_rows
    ok (put o (tokens_to_tensor rows) vs)
