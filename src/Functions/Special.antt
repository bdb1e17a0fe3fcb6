-- ===== src/Functions/Special.antt =====
-- src/expression_eval.cpp: the functions that eval_apply treats before fn_table.
use omle_runtime.Prelude.{
  ℕ, suc, ◌&&◌, ◌||◌, Option, none, some, List, [], ◌∷◌, String, length, get_elem?, replicate, leb,
  ◌==◌, if◌then◌else◌, same, mem_name,
}
use omle_runtime.Prelude.Int.{pos}
use omle_runtime.Floats.{Floats, F64, is_nan_safe64}
use omle_runtime.Status.{Result, ok, defined, tabulate, ◌>>=◌}
use omle_runtime.Functions.{Column, cell, nought, gt, is_true, std_min, std_max}

-- the names of string_fns
abbrev pub string_fns : List String
string_fns =
    "concat" ∷ "lower" ∷ "upper" ∷ "trim" ∷ "ltrim" ∷ "rtrim" ∷ "substring" ∷ "substr" ∷ "left"
    ∷ "right" ∷ "length" ∷ "char_length" ∷ "regexp_replace" ∷ "replace" ∷ "split" ∷ "lpad" ∷ "rpad"
    ∷ "repeat" ∷ "reverse" ∷ "initcap" ∷ "translate" ∷ "ascii" ∷ "base64" ∷ "unbase64" ∷ "decode"
    ∷ "encode" ∷ "format_string" ∷ "printf" ∷ "nvl" ∷ "nvl2" ∷ []

module _ ⦃fl : Floats⦄ where
  open fl use {f64}

  -- if
  unfoldable pub select : List Column → ℕ → Result Column
  unfolding cell
  select args n =
      tabulate (λ i. cell args 0 i >>= λ c. if is_true c then cell args 1 i else cell args 2 i) 0 n

  -- clamp: std::max(args[1][i], std::min(args[0][i], args[2][i]))
  unfoldable pub clamp : List Column → ℕ → Result Column
  unfolding cell
  clamp args n =
      tabulate
        (λ i. do
          lo ← cell args 1 i
          x ← cell args 0 i
          hi ← cell args 2 i
          ok (std_max lo (std_min x hi)))
        0 n

  -- The body of the inner loop of coalesce; args[k][i] is read only where r[i] is missing.
  unfoldable pub coalesce_cell : Column → F64 → ℕ → Result F64
  coalesce_cell col x i =
      if is_nan_safe64 x
      then (defined (get_elem? col i) >>= λ y. ok (if is_nan_safe64 y then x else y))
      else ok x

  -- The inner loop of coalesce, over the rows of `r` from row i on.
  unfoldable pub coalesce_rows : Column → Column → ℕ → Result Column
  coalesce_rows col [] i = ok []
  coalesce_rows col (x ∷ r) i =
      coalesce_cell col x i >>= λ z. coalesce_rows col r (suc i) >>= λ zs. ok (z ∷ zs)

  -- for (k ...) the inner loop, on the column so far
  unfoldable pub coalesce_columns : List Column → Column → Result Column
  coalesce_columns [] r = ok r
  coalesce_columns (col ∷ args) r = coalesce_rows col r 0 >>= coalesce_columns args

  -- coalesce
  unfoldable pub coalesce : List Column → ℕ → Result Column
  coalesce args n = coalesce_columns args (replicate n f64.nan)

  -- fill_missing, replace_missing
  unfoldable pub fill_missing : List Column → ℕ → Result Column
  unfolding cell
  fill_missing args n =
      tabulate (λ i. cell args 0 i >>= λ x. if is_nan_safe64 x then cell args 1 i else ok x) 0 n

  -- leaky_relu
  unfoldable pub leaky_relu : List Column → ℕ → Result Column
  unfolding cell
  leaky_relu args n = do
    alpha ← (if leb 2 (length args) then cell args 1 0 else ok (f64.literal (pos 1) 2))
    tabulate (λ i. cell args 0 i >>= λ x. ok (if gt x nought then x else f64.mul alpha x)) 0 n

  -- The tests before fn_table, in their order; `none` where none of them is met.
  unfoldable pub special : String → List Column → ℕ → Option (Result Column)
  special fn args n =
      if same fn "if" && length args == 3
      then some (select args n)
      else if same fn "clamp" && length args == 3
      then some (clamp args n)
      else if same fn "coalesce"
      then some (coalesce args n)
      else if (same fn "fill_missing" || same fn "replace_missing") && length args == 2
      then some (fill_missing args n)
      else if same fn "leaky_relu" && leb 1 (length args)
      then some (leaky_relu args n)
      else if mem_name fn string_fns
      then some (ok (replicate n f64.nan))
      else none
