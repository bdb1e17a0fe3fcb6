-- ===== src/Functions/Shape.antt =====
-- Every function of the expression language gives a column with one value for each row.
use omle_runtime.Prelude.{
  ℕ, suc, ◌≡◌, ap, Bool, true, false, none, some, List, [], ◌∷◌, String, length, replicate,
  length-replicate, leb, ◌==◌, if◌then◌else◌, same, ◌∙◌, sym, ◌&&◌, ◌||◌, mem_name,
}
use mathlib.Core.Option.{some-injective}
use omle_runtime.Prelude.Int.{pos}
use omle_runtime.Floats.{Floats}
use omle_runtime.Status.{ok, ◌>>=◌, >>=-eq-ok, ok-injective, length-tabulate}
use omle_runtime.Functions.{Column, cell, EvalFn, unary, binary, run_fn}
use omle_runtime.Functions.Special.{
  select, clamp, coalesce_cell, coalesce_rows, coalesce_columns, coalesce, fill_missing, leaky_relu,
  special, string_fns,
}

module _ ⦃fl : Floats⦄ where
  open fl use {f64}

  pub length-run_fn :
      (f : EvalFn) (args : List Column) (n : ℕ) {r : Column} → run_fn f args n ≡ ok r → length r ≡ n
  unfolding run_fn
  length-run_fn (unary f) args n h = length-tabulate _ 0 n h
  length-run_fn (binary f) args n h = length-tabulate _ 0 n h

  length-coalesce_rows :
      (col r : Column) (i : ℕ) {s : Column} → coalesce_rows col r i ≡ ok s → length s ≡ length r
  unfolding coalesce_rows
  length-coalesce_rows col [] i h = ap length (sym (ok-injective h))
  length-coalesce_rows col (x ∷ r) i h =
      let (z, e, h') =
        >>=-eq-ok (coalesce_cell col x i) (λ z. coalesce_rows col r (suc i) >>= λ zs. ok (z ∷ zs))
          h in
      let (zs, e', h'') = >>=-eq-ok (coalesce_rows col r (suc i)) (λ zs. ok (z ∷ zs)) h' in
      ap length (sym (ok-injective h'')) ∙ ap suc (length-coalesce_rows col r (suc i) e')

  length-coalesce_columns :
      (args : List Column) (r : Column) {s : Column}
      → coalesce_columns args r ≡ ok s
      → length s ≡ length r
  unfolding coalesce_columns
  length-coalesce_columns [] r h = ap length (sym (ok-injective h))
  length-coalesce_columns (col ∷ args) r h =
      let (t, e, h') = >>=-eq-ok (coalesce_rows col r 0) (coalesce_columns args) h in
      length-coalesce_columns args t h' ∙ length-coalesce_rows col r 0 e

  length-leaky_relu :
      (args : List Column) (n : ℕ) {r : Column} → leaky_relu args n ≡ ok r → length r ≡ n
  unfolding leaky_relu
  length-leaky_relu args n h =
      let (alpha, e, h') =
        >>=-eq-ok (if leb 2 (length args) then cell args 1 0 else ok (f64.literal (pos 1) 2)) _ h in
      length-tabulate _ 0 n h'

  length-special_on :
      (t1 t2 t3 t4 t5 t6 : Bool) (args : List Column) (n : ℕ) {r : Column}
      → (if t1
          then some (select args n)
          else if t2
          then some (clamp args n)
          else if t3
          then some (coalesce args n)
          else if t4
          then some (fill_missing args n)
          else if t5
          then some (leaky_relu args n)
          else if t6
          then some (ok (replicate n f64.nan))
          else none)
        ≡ some (ok r)
      → length r ≡ n
  unfolding select clamp coalesce fill_missing
  length-special_on true t2 t3 t4 t5 t6 args n h = length-tabulate _ 0 n (some-injective _ _ h)
  length-special_on false true t3 t4 t5 t6 args n h = length-tabulate _ 0 n (some-injective _ _ h)
  length-special_on false false true t4 t5 t6 args n h =
      length-coalesce_columns args _ (some-injective _ _ h) ∙ length-replicate n f64.nan
  length-special_on false false false true t5 t6 args n h =
      length-tabulate _ 0 n (some-injective _ _ h)
  length-special_on false false false false true t6 args n h =
      length-leaky_relu args n (some-injective _ _ h)
  length-special_on false false false false false true args n h =
      ap length (sym (ok-injective (some-injective _ _ h))) ∙ length-replicate n f64.nan
  length-special_on false false false false false false args n h = cc

  pub length-special :
      (fn : String) (args : List Column) (n : ℕ) {r : Column}
      → special fn args n ≡ some (ok r)
      → length r ≡ n
  unfolding special
  length-special fn args n h =
      length-special_on (same fn "if" && length args == 3) (same fn "clamp" && length args == 3)
        (same fn "coalesce")
        ((same fn "fill_missing" || same fn "replace_missing") && length args == 2)
        (same fn "leaky_relu" && leb 1 (length args)) (mem_name fn string_fns) args n h
