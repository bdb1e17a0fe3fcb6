-- ===== src/Operators/Projections.antt =====
-- src/operator_registry.cpp, the domain omle.feature: decompositions that project a row onto components.
use omle_runtime.Prelude.{
  ℕ, Bool, ◌||◌, Option, none, some, List, String, map, foldl, length, get_elem?, if◌then◌else◌,
  same,
}
use omle_runtime.Prelude.Int.{ℤ, pos}
use omle_runtime.Floats.{Floats, F64, exp, pow, tanh}
use omle_runtime.Status.{Result, ok, defined, tabulate, fold_range, ◌>>=◌}
use omle_runtime.Tensor.{Tensor, Cell, float_cell, double_cell, get, numel, read_f32, read_f64}
use omle_runtime.Tensor.Build.{with_elements}
use omle_runtime.ValueStore.{ValueStore, put}
use omle_runtime.Ast.{AttributeMap, attr_float}
use omle_runtime.Operators.{
  Operator, attr_i, attr_s, resolve_t64, wants_f64, out_cell, out_buf, out_rows, owned_elements,
}
use omle_runtime.Operators.Gathered.{with_names, source_tensor, flat_get, update_row, update_rows}
use omle_runtime.Operators.Indicators.{flat_get_or, linear_project}

module _ ⦃fl : Floats⦄ where
  open fl use {f32, f64}

  -- resolve_t64, of a parameter that no input slot holds
  abbrev parameter_tensor :
      ValueStore → List String → AttributeMap → String → Result (Option Tensor)
  parameter_tensor vs ins attrs aname = resolve_t64 vs ins (length ins) attrs aname

  -- The source itself without components, and otherwise what is computed with them.
  project_with : Option Tensor → Tensor → (Tensor → Result Tensor) → Result Tensor
  project_with none src f = ok src
  project_with (some comp) src f = f comp

  -- op_truncated_svd
  unfoldable pub op_truncated_svd : Operator
  unfolding source_tensor resolve_t64 project_with linear_project put
  op_truncated_svd ins outs attrs fns vs n_rows = with_names ins outs vs λ i o. do
    src ← source_tensor vs ins n_rows
    comp ← parameter_tensor vs ins attrs "components"
    t ← project_with comp src (λ comp. linear_project src comp none n_rows)
    ok (put o t vs)

  -- op_pca, and op_sparse_pca, whose body is the same
  unfoldable pub op_pca : Operator
  unfolding source_tensor resolve_t64 project_with linear_project put
  op_pca ins outs attrs fns vs n_rows = with_names ins outs vs λ i o. do
    src ← source_tensor vs ins n_rows
    mean ← parameter_tensor vs ins attrs "mean"
    comp ← parameter_tensor vs ins attrs "components"
    t ← project_with comp src (λ comp. linear_project src comp mean n_rows)
    ok (put o t vs)

  -- The whitened rows of op_fast_ica.
  unfoldable pub whitened : Tensor → Tensor → Option Tensor → ℕ → Result Tensor
  unfolding get flat_get_or wants_f64 out_buf
  whitened src white mean n_rows = out_buf (wants_f64 src) n_rows white.n_rows λ r c.
      fold_range
        (λ f s. get src r f >>= λ v. flat_get_or mean f (f64.literal (pos 0) 0) >>= λ m.
          get white c f >>= λ w. ok (f64.add s (f64.mul (f64.sub v m) w)))
        0 src.n_cols (f64.literal (pos 0) 0)

  unmixed : Tensor → Option Tensor → Option Tensor → ℕ → Tensor → Result Tensor
  unfolding whitened linear_project
  unmixed src none mean n_rows comp = linear_project src comp mean n_rows
  unmixed src (some white) mean n_rows comp =
      whitened src white mean n_rows >>= λ t. linear_project t comp none n_rows

  -- op_fast_ica
  unfoldable pub op_fast_ica : Operator
  unfolding source_tensor resolve_t64 project_with unmixed put
  op_fast_ica ins outs attrs fns vs n_rows = with_names ins outs vs λ i o. do
    src ← source_tensor vs ins n_rows
    mean ← parameter_tensor vs ins attrs "mean"
    white ← parameter_tensor vs ins attrs "whitening"
    comp ← parameter_tensor vs ins attrs "components"
    t ← project_with comp src (unmixed src white mean n_rows)
    ok (put o t vs)

  -- p[i] = std::max(T(0), p[i]), at the width
  unfoldable pub positive_cell : Bool → Cell → Result Cell
  unfolding read_f32 read_f64
  positive_cell wide c =
      let zero32 = f32.literal (pos 0) 0 in
      let zero64 = f64.literal (pos 0) 0 in
      if wide
      then (read_f64 c >>= λ x. ok (double_cell (if f64.lt zero64 x then x else zero64)))
      else (read_f32 c >>= λ x. ok (float_cell (if f32.lt zero32 x then x else zero32)))

  -- The projection of op_nmf with its negative entries set to 0.
  unfoldable pub positive_part : Tensor → Result Tensor
  unfolding update_rows update_row positive_cell wants_f64 numel owned_elements with_elements
  positive_part t =
      update_rows (update_row (λ i. positive_cell (wants_f64 t)) 0) 1 (numel t) (owned_elements t)
      >>= λ cells. ok (with_elements t cells)

  -- op_nmf
  unfoldable pub op_nmf : Operator
  unfolding source_tensor resolve_t64 project_with linear_project positive_part put
  op_nmf ins outs attrs fns vs n_rows = with_names ins outs vs λ i o. do
    src ← source_tensor vs ins n_rows
    comp ← parameter_tensor vs ins attrs "components"
    t ← project_with comp src (λ comp. linear_project src comp none n_rows >>= positive_part)
    ok (put o t vs)

  -- The softmax of one row of op_lda; a tiny sum divides nothing.
  unfoldable pub topic_row : List F64 → List F64
  topic_row row =
      let top = foldl (λ m v. if f64.lt m v then v else m) (f64.neg f64.infinity) row in
      let exps = map (λ v. f64.math1 exp (f64.sub v top)) row in
      let total = foldl (λ s v. f64.add s v) (f64.literal (pos 0) 0) exps in
      if f64.lt (f64.literal (pos 1) 12) total then map (λ v. f64.div v total) exps else exps

  topics : Tensor → ℕ → Result Tensor
  unfolding get topic_row wants_f64 out_rows out_cell
  topics t n_rows = out_rows (wants_f64 t) n_rows t.n_cols λ r.
      tabulate (get t r) 0 t.n_cols >>= λ row. ok (map (out_cell (wants_f64 t)) (topic_row row))

  -- op_lda
  unfoldable pub op_lda : Operator
  unfolding source_tensor resolve_t64 project_with linear_project topics put
  op_lda ins outs attrs fns vs n_rows = with_names ins outs vs λ i o. do
    src ← source_tensor vs ins n_rows
    comp ← parameter_tensor vs ins attrs "components"
    t ← project_with comp src (λ comp. linear_project src comp none n_rows >>= λ t. topics t n_rows)
    ok (put o t vs)

  -- A sum over the features of row i of X and row j of the fitted samples.
  feature_sum : (F64 → F64 → F64) → Tensor → Tensor → ℕ → ℕ → Result F64
  unfolding get
  feature_sum term x fit i j =
      fold_range (λ f s. get x i f >>= λ a. get fit j f >>= λ b. ok (f64.add s (term a b))) 0
        fit.n_cols (f64.literal (pos 0) 0)

  -- One entry of the kernel matrix.
  unfoldable pub kernel_entry : String → F64 → ℤ → F64 → Tensor → Tensor → ℕ → ℕ → Result F64
  unfolding feature_sum
  kernel_entry kernel gamma degree coef0 x fit i j =
      let dot = feature_sum f64.mul x fit i j in
      let line = λ (d : F64). f64.add (f64.mul gamma d) coef0 in
      let poly = dot >>= λ d. ok (f64.math2 pow (line d) (f64.of_int degree)) in
      let sigmoid = dot >>= λ d. ok (f64.math1 tanh (line d)) in
      let square = λ (a b : F64). f64.mul (f64.sub a b) (f64.sub a b) in
      let rbf =
        feature_sum square x fit i j >>= λ sq. ok (f64.math1 exp (f64.mul (f64.neg gamma) sq)) in
      if same kernel "linear"
      then dot
      else (if same kernel "poly" || same kernel "polynomial"
          then poly
          else (if same kernel "sigmoid" then sigmoid else rbf))

  all_mean_of : Option Tensor → Result F64
  unfolding flat_get
  all_mean_of none = ok (f64.literal (pos 0) 0)
  all_mean_of (some t) = flat_get t 0

  -- One row of the kernel matrix, centered by the stored means.
  unfoldable pub centered_row : Option Tensor → F64 → List F64 → Result (List F64)
  unfolding flat_get
  centered_row none all_mean row = ok row
  centered_row (some kr) all_mean row =
      let total = foldl (λ s v. f64.add s v) (f64.literal (pos 0) 0) row in
      let mean = f64.div total (f64.of_int (pos (length row))) in
      tabulate
        (λ j. defined (get_elem? row j) >>= λ v.
          flat_get kr j >>= λ m. ok (f64.add v (f64.add (f64.sub (f64.neg mean) m) all_mean)))
        0 (length row)

  -- The kernel matrix, centered where there are means.
  unfoldable pub kernel_matrix :
      (ℕ → ℕ → Result F64) → Option Tensor → Option Tensor → ℕ → ℕ → Result (List (List F64))
  unfolding all_mean_of centered_row
  kernel_matrix entry none ka n_rows n_train = tabulate (λ i. tabulate (entry i) 0 n_train) 0 n_rows
  kernel_matrix entry (some kr) ka n_rows n_train = all_mean_of ka >>= λ all_mean.
      tabulate (λ i. tabulate (entry i) 0 n_train >>= centered_row (some kr) all_mean) 0 n_rows

  kernel_project :
      (Tensor → ℕ → ℕ → Result F64)
      → Option Tensor
      → Option Tensor
      → Option Tensor
      → Option Tensor
      → Tensor
      → ℕ
      → Result Tensor
  unfolding kernel_matrix get wants_f64 out_buf
  kernel_project entry (some fit) (some dual) kr ka x n_rows = do
    rows ← kernel_matrix (entry fit) kr ka n_rows fit.n_rows
    out_buf (wants_f64 x) n_rows dual.n_rows λ i c. defined (get_elem? rows i) >>= λ row.
        fold_range
          (λ j s.
            defined (get_elem? row j) >>= λ k. get dual c j >>= λ w. ok (f64.add s (f64.mul k w)))
          0 fit.n_rows (f64.literal (pos 0) 0)
  kernel_project entry _ _ kr ka x n_rows = ok x

  -- op_kernel_pca
  unfoldable pub op_kernel_pca : Operator
  unfolding source_tensor resolve_t64 attr_s attr_i attr_float kernel_entry kernel_project put
  op_kernel_pca ins outs attrs fns vs n_rows = with_names ins outs vs λ i o. do
    x ← source_tensor vs ins n_rows
    fit ← parameter_tensor vs ins attrs "fit_samples"
    dual ← parameter_tensor vs ins attrs "dual_components"
    kr ← parameter_tensor vs ins attrs "kernel_center_row_mean"
    ka ← parameter_tensor vs ins attrs "kernel_center_all_mean"
    let one = f64.literal (pos 1) 0
    let gamma = attr_float attrs "gamma" (f64.div one (f64.of_int (pos x.n_cols)))
    let entry =
        kernel_entry (attr_s attrs "kernel" "rbf") gamma (attr_i attrs "degree" (pos 3))
          (attr_float attrs "coef0" one) x
    t ← kernel_project entry fit dual kr ka x n_rows
    ok (put o t vs)
