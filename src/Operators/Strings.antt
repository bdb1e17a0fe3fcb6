-- ===== src/Operators/Strings.antt =====
-- src/operator_registry.cpp, the domain omle.text: the functions on one string. The source works on the
-- bytes of UTF-8 in the "C" locale, where only ASCII characters are white space or have a case; a
-- string is its characters here.
use Prim.Native.Char.{Char, code}
use Prim.Native.String.{String, [], ◌∷◌, ◌++◌, char_at, count}
use omle_runtime.Prelude.{
  ℕ, zero, suc, ◌-◌, Bool, true, false, ◌&&◌, ◌||◌, List, ltb, ◌==◌, if◌then◌else◌, same,
}

-- std::isspace
unfoldable pub is_space : Char → Bool
is_space c = code c == 32 || (ltb 8 (code c) && ltb (code c) 14)

-- std::tolower
unfoldable pub to_lower : Char → Char
to_lower c =
    if ltb 64 (code c) && ltb (code c) 91
    then char_at "abcdefghijklmnopqrstuvwxyz" (code c - 65)
    else c

-- str_lowercase
unfoldable pub str_lowercase : String → String
unfolding to_lower
str_lowercase [] = []
str_lowercase (c ∷ s) = to_lower c ∷ str_lowercase s

-- The first loop of str_trim.
unfoldable pub trim_start : String → String
unfolding is_space
trim_start [] = []
trim_start (c ∷ s) = if is_space c then trim_start s else c ∷ s

-- A character in front of what the second loop keeps of the rest.
unfoldable pub keep_char : Char → String → String
unfolding is_space
keep_char c [] = if is_space c then [] else c ∷ []
keep_char c (d ∷ s) = c ∷ d ∷ s

-- The second loop of str_trim.
unfoldable pub trim_end : String → String
unfolding keep_char
trim_end [] = []
trim_end (c ∷ s) = keep_char c (trim_end s)

-- str_trim
unfoldable pub str_trim : String → String
unfolding trim_start trim_end
str_trim s = trim_end (trim_start s)

-- The loop of str_normalize_ws, with its flag.
unfoldable pub collapse : Bool → String → String
unfolding is_space
collapse in_ws [] = []
collapse in_ws (c ∷ s) =
    let spaced = collapse true s in
    let plain = collapse false s in
    if is_space c then (if in_ws then spaced else " " ++ spaced) else c ∷ plain

-- str_normalize_ws
unfoldable pub str_normalize_ws : String → String
unfolding collapse
str_normalize_ws s = collapse false s

-- Whether the text begins with `old`.
unfoldable pub begins_with : String → String → Bool
begins_with [] s = true
begins_with (d ∷ old) [] = false
begins_with (d ∷ old) (c ∷ s) = (code d == code c) && begins_with old s

-- What stands behind so many characters.
skip_chars : ℕ → String → String
skip_chars zero s = s
skip_chars (suc n) [] = []
skip_chars (suc n) (c ∷ s) = skip_chars n s

-- The loop of str_replace_literal; `skip` characters belong to a hit that has been replaced.
unfoldable pub replace_from : String → String → Bool → ℕ → String → String
unfolding begins_with skip_chars
replace_from old new all skip [] = []
replace_from old new all (suc skip) (c ∷ s) = replace_from old new all skip s
replace_from old new all zero (c ∷ s) =
    let further = replace_from old new all (count old - 1) s in
    let past = replace_from old new all zero s in
    if begins_with old (c ∷ s)
    then new ++ (if all then further else skip_chars (count old - 1) s)
    else c ∷ past

-- str_replace_literal
unfoldable pub str_replace_literal : String → String → Bool → String → String
unfolding replace_from
str_replace_literal old new all s = if same old "" then s else replace_from old new all 0 s

-- A finished word, where there is one.
abbrev flush : String → List String → List String
flush [] words = words
flush (c ∷ s) words = List.◌∷◌ (c ∷ s) words

-- `while (iss >> tok)`: the words between white space, `word` the one that is being read.
unfoldable pub words_from : String → String → List String
unfolding is_space
words_from word [] = flush word List.[]
words_from word (c ∷ s) =
    let ended = words_from [] s in
    let longer = words_from (word ++ (c ∷ [])) s in if is_space c then flush word ended else longer
