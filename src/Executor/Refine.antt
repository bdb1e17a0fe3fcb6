-- ===== src/Executor/Refine.antt =====
-- src/graph_executor.cpp, predict_named: the batch cut into chunks gives what the whole batch gives.
use mathlib.Core.Path.{subst}
use omle_runtime.Prelude.{
  ℕ, zero, suc, ◌+◌, ◌-◌, ◌*◌, ◌≤◌, ◌<◌, ◌≡◌, refl, sym, ap, ap₂, ◌∙◌, arith, min, inl, inr, true,
  false, Bool-cases, Option, none, some, List, [], ◌∷◌, String, map, length, leb, ltb, ◌||◌,
  if◌then◌else◌, Map, insert, lookup-insert_self,
}
use omle_runtime.Floats.{Floats}
use omle_runtime.Status.{Result, ok, undefined, tabulate, rows, tabulate-rows, ◌>>=◌}
use omle_runtime.Tensor.{Tensor, same_dtype, DataType, Cell, elements}
use omle_runtime.Tensor.Build.{empty_tensor, make_dense, with_elements}
use omle_runtime.Tensor.Convert.{first_cells}
use omle_runtime.Executor.Parallel.{
  thread_count, chunk_size, part_cells, concat_parts, total_rows, is_float_dtype, vcat_tensors,
  part_of, merge_names, valid_parts, merge_parts, in_worker, task, predict_rows,
}
use omle_runtime.Executor.Chunks.{chunks_reach, positive, count_next, starts_next}
use omle_runtime.Executor.Tables.{cells, IsTable, cells-join, make_dense-IsTable}

module _ ⦃fl : Floats⦄ where
  module _ (dt : DataType) (cols : ℕ) (g : ℕ → List Cell) (name : String) where
    -- A run on the rows from a to b gives the one output, and in it those rows of the table.
    abbrev pub RowWise : (ℕ → ℕ → Result (Map Tensor)) → (ℕ → ℕ → Tensor) → ℕ → Type 0
    RowWise run out n_rows =
        (a b : ℕ)
        → a < b
        → b ≤ n_rows
        → (run a b ≡ ok ((name, out a b) ∷ [])) × IsTable dt cols g a (b - a) (out a b)

    part_of-only : (t : Tensor) → part_of name ((name, t) ∷ []) ≡ t
    unfolding part_of insert
    part_of-only t =
        ap (λ (o : Option Tensor). elim o [ none ↦ empty_tensor | some u ↦ u ])
          (lookup-insert_self name t [])

    same_dtype_refl : (d : DataType) → same_dtype d d ≡ true
    unfolding same_dtype
    same_dtype_refl d = ground arith

    part_cells-table :
        {a n : ℕ} {t : Tensor}
        → IsTable dt cols g a n t
        → part_cells dt cols t ≡ ok (cells dt cols g a n)
    unfolding part_cells
    part_cells-table {a} {n} {t} i =
        let typed : same_dtype t.dtype dt ≡ true =
          ap (λ d. same_dtype d dt) i.of_dtype ∙ same_dtype_refl dt in
        rw typed (ap (λ r. first_cells (r * cols) (elements t)) i.of_rows ∙ i.holds)

    module _ (run : ℕ → ℕ → Result (Map Tensor)) (out : ℕ → ℕ → Tensor) (n_rows c : ℕ)
        (h : RowWise run out n_rows) (pos : 0 < c) where
      stop : ℕ → ℕ
      stop t = min (t * c + c) n_rows

      part : ℕ → Map Tensor
      part t = if leb n_rows (t * c) then [] else (name, out (t * c) (stop t)) ∷ []

      starts : (t : ℕ) → leb n_rows (t * c) ≡ false → t * c < stop t
      unfolding stop
      starts t e = ground arith

      stops : (t : ℕ) → stop t ≤ n_rows
      unfolding stop
      stops t = omega arith

      task-part : (t : ℕ) → task run n_rows c t ≡ ok (part t)
      unfolding task part stop in_worker
      task-part t = elim (Bool-cases (leb n_rows (t * c))) [
        | inl e ↦ rw e
        | inr e ↦ rw (e, (h (t * c) (stop t) (starts t e) (stops t)).0)
      ]

      tables : ℕ → ℕ → List Tensor
      tables t k = map (part_of name) (valid_parts (rows part t k))

      tables-past : (t k : ℕ) → leb n_rows (t * c) ≡ true → tables t (suc k) ≡ tables (suc t) k
      unfolding tables part valid_parts
      tables-past t k e = rw e

      tables-within :
          (t k : ℕ)
          → leb n_rows (t * c) ≡ false
          → tables t (suc k) ≡ out (t * c) (stop t) ∷ tables (suc t) k
      unfolding tables part valid_parts
      tables-within t k e = rw (e, part_of-only (out (t * c) (stop t)))

      -- The parts from task t on, k of them, hold m rows.
      record Holds (t k m : ℕ) : Type 0 where
        of_cells : concat_parts dt cols (tables t k) ≡ ok (cells dt cols g (t * c) m)
        of_total : total_rows (tables t k) ≡ m
        of_count : m ≡ min ((t + k) * c) n_rows - t * c

      past :
          (t k : ℕ)
          → leb n_rows (t * c) ≡ true
          → (m : ℕ) × Holds (suc t) k m
          → (m : ℕ) × Holds t (suc k) m
      past t k e (m, i) =
          let z : m ≡ 0 = ground (arith, i.of_count) in
          (
            0,
            record {
              of_cells = rw (tables-past t k e) (i.of_cells ∙ rw z);
              of_total = rw (tables-past t k e) (i.of_total ∙ z);
              of_count = ground arith;
            },
          )

      within :
          (t k : ℕ)
          → leb n_rows (t * c) ≡ false
          → (m : ℕ) × Holds (suc t) k m
          → (m : ℕ) × Holds t (suc k) m
      unfolding concat_parts stop
      within t k e (m, i) =
          let table = (h (t * c) (stop t) (starts t e) (stops t)).1 in
          (
            stop t - t * c + m,
            record {
              of_cells =
                  rw (tables-within t k e, part_cells-table table, i.of_cells)
                    (ap ok (
                      cells-join dt cols g (t * c) (stop t - t * c) (suc t * c) m
                        (starts_next t k c n_rows m (ground arith) i.of_count)));
              of_total = rw (tables-within t k e) (omega (arith, table.of_rows, i.of_total));
              of_count = count_next t k c n_rows m (ground arith) i.of_count;
            },
          )

      tables-Holds : (t k : ℕ) → (m : ℕ) × Holds t k m
      unfolding tables concat_parts valid_parts
      tables-Holds t zero = (0, record { of_cells = refl; of_total = refl; of_count = omega arith })
      tables-Holds t (suc k) = elim (Bool-cases (leb n_rows (t * c))) [
        | inl e ↦ past t k e (tables-Holds (suc t) k)
        | inr e ↦ within t k e (tables-Holds (suc t) k)
      ]

      first_part :
          (k : ℕ)
          → 0 < n_rows
          → valid_parts (rows part 0 (suc k))
            ≡ ((name, out (0 * c) (stop 0)) ∷ []) ∷ valid_parts (rows part 1 k)
      unfolding part valid_parts
      first_part k b = let e : leb n_rows (0 * c) ≡ false = ground arith in rw e

      vcat-table :
          (p : Tensor) (ps : List Tensor) (a : ℕ) {m : ℕ}
          → p.dtype ≡ dt
          → p.n_cols ≡ cols
          → is_float_dtype dt ≡ true
          → concat_parts dt cols (p ∷ ps) ≡ ok (cells dt cols g a m)
          → total_rows (p ∷ ps) ≡ m
          → vcat_tensors (p ∷ ps) ≡ ok (with_elements (make_dense dt m cols) (cells dt cols g a m))
      unfolding vcat_tensors
      vcat-table p ps a {m} ed ec f h n = ap₂ (joined (p ∷ ps)) ed ec ∙ rw (f, h, n)
        where
          joined : List Tensor → DataType → ℕ → Result Tensor
          joined ts d k =
              if is_float_dtype d
              then (concat_parts d k ts >>= λ cs.
                  ok (with_elements (make_dense d (total_rows ts) k) cs))
              else undefined

      finish :
          (parts : List (Map Tensor)) (p : Tensor) (m : ℕ)
          → IsTable dt cols g 0 m p
          → is_float_dtype dt ≡ true
          → ((r : ℕ) → length (g r) ≡ cols)
          → concat_parts dt cols (p ∷ map (part_of name) parts) ≡ ok (cells dt cols g 0 n_rows)
          → total_rows (p ∷ map (part_of name) parts) ≡ n_rows
          → (t : Tensor) × (merge_parts (((name, p) ∷ []) ∷ parts) ≡ ok ((name, t) ∷ []))
            × IsTable dt cols g 0 n_rows t
      unfolding merge_parts merge_names insert
      finish [] p m i f l ec et =
          let e : m ≡ n_rows = omega (arith, i.of_rows) in
          (p, refl, subst (λ k. IsTable dt cols g 0 k p) e i)
      finish (q ∷ parts) p m i f l ec et =
          let whole =
            vcat-table p (map (part_of name) (q ∷ parts)) 0 i.of_dtype i.of_cols f ec et in
          (
            with_elements (make_dense dt n_rows cols) (cells dt cols g 0 n_rows),
            rw (part_of-only p, whole),
            make_dense-IsTable dt cols g 0 n_rows l,
          )

      merged :
          (k : ℕ)
          → 0 < n_rows
          → n_rows ≤ suc k * c
          → is_float_dtype dt ≡ true
          → ((r : ℕ) → length (g r) ≡ cols)
          → (t : Tensor) × (merge_parts (valid_parts (rows part 0 (suc k))) ≡ ok ((name, t) ∷ []))
            × IsTable dt cols g 0 n_rows t
      unfolding tables
      merged k b reach f l =
          let e : leb n_rows (0 * c) ≡ false = ground arith in
          let z : 0 * c ≡ 0 = omega arith in
          let table = (h (0 * c) (stop 0) (starts 0 e) (stops 0)).1 in
          let (m, i) = tables-Holds 0 (suc k) in
          let w : m ≡ n_rows = ground (arith, i.of_count) in
          let split = tables-within 0 k e in
          rw (first_part k b) (
            finish (valid_parts (rows part 1 k)) (out (0 * c) (stop 0)) (stop 0 - 0 * c)
              (subst (λ a. IsTable dt cols g a (stop 0 - 0 * c) (out (0 * c) (stop 0))) z table) f l
              (sym (ap (concat_parts dt cols) split)
                ∙ i.of_cells
                ∙ ap₂ (λ a r. ok (cells dt cols g a r)) z w)
              (sym (ap total_rows split) ∙ i.of_total ∙ w))

      predict_parallel :
          (T : ℕ)
          → 0 < n_rows
          → n_rows ≤ T * c
          → is_float_dtype dt ≡ true
          → ((r : ℕ) → length (g r) ≡ cols)
          → (t : Tensor) × ((tabulate (task run n_rows c) 0 T >>= λ parts.
                merge_parts (valid_parts parts))
              ≡ ok ((name, t) ∷ []))
            × IsTable dt cols g 0 n_rows t
      predict_parallel zero b reach f l = absurd (omega arith)
      predict_parallel (suc k) b reach f l =
          let (t, e, i) = merged k b reach f l in
          (t, rw (tabulate-rows (task run n_rows c) part 0 (suc k) (λ i u. task-part i)) e, i)

    -- If a run on any range of rows of a batch gives one float output that holds those rows of a
    -- table, then a prediction of the batch, cut into chunks or not, gives that output with all
    -- rows of the table in order.
    pub predict_rows-IsTable :
        (run : ℕ → ℕ → Result (Map Tensor)) (out : ℕ → ℕ → Tensor) (pool : Option ℕ)
        (min_rows n_rows : ℕ)
        → RowWise run out n_rows
        → 0 < n_rows
        → is_float_dtype dt ≡ true
        → ((r : ℕ) → length (g r) ≡ cols)
        → (t : Tensor) × (predict_rows run pool min_rows n_rows ≡ ok ((name, t) ∷ []))
          × IsTable dt cols g 0 n_rows t
    unfolding predict_rows
    predict_rows-IsTable run out pool min_rows n_rows h b f l =
        let T = thread_count pool in
        let c = chunk_size n_rows T in
        elim (Bool-cases (leb T 1 || ltb n_rows (T * min_rows))) [
          | inl e ↦
              let (r, i) = h 0 n_rows b (omega arith) in
              let z : n_rows - 0 ≡ n_rows = omega arith in
              (out 0 n_rows, rw e r, subst (λ k. IsTable dt cols g 0 k (out 0 n_rows)) z i)
          | inr e ↦
              let reach = chunks_reach n_rows T (ground arith) in
              let q : 0 < T * c = omega (arith, reach) in
              let p = positive T c q in rw e (predict_parallel run out n_rows c h p T b reach f l)
        ]
