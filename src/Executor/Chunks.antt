-- ===== src/Executor/Chunks.antt =====
-- src/graph_executor.cpp, predict_named: the ranges of rows that the tasks of a batch take.
use omle_runtime.Prelude.{
  ◌-◌, ◌⊎◌, ℕ, zero, suc, ◌+◌, ◌*◌, ◌/◌, ◌≤◌, ◌<◌, ◌≡◌, arith, min, inl, inr, Bool, Bool-cases, leb,
  ltb, ◌==◌, ◌&&◌, sym, ◌∙◌, ap, refl, false, if◌then◌else◌, [], ◌∷◌, Map,
}
use native.Mathlib.Nat.{lt_of_mul-lt-mul_right}
use omle_runtime.Floats.{Floats}
use omle_runtime.Status.{Result, ok}
use omle_runtime.Tensor.{Tensor}
use omle_runtime.Tensor.Build.{empty_tensor}
use omle_runtime.Executor.Parallel.{chunk_size, task, in_worker}

-- Does task t take row r?
abbrev takes : ℕ → ℕ → ℕ → ℕ → Bool
takes n_rows n_threads t r =
    leb (t * chunk_size n_rows n_threads) r
    && ltb r (min (t * chunk_size n_rows n_threads + chunk_size n_rows n_threads) n_rows)

-- The tasks reach to the last row.
pub chunks_reach :
    (n_rows n_threads : ℕ) → 0 < n_threads → n_rows ≤ n_threads * chunk_size n_rows n_threads
unfolding chunk_size
chunks_reach n zero h = absurd (omega arith)
chunks_reach n (suc k) h = omega arith

below_next : (r c : ℕ) → 0 < c → r < (r / c) * c + c
below_next r zero h = absurd (omega arith)
below_next r (suc k) h = omega arith

at_or_above : (r c : ℕ) → (r / c) * c ≤ r
at_or_above r zero = omega arith
at_or_above r (suc k) = omega arith

same_task : (c r s t : ℕ) → s * c ≤ r → r < s * c + c → t * c ≤ r → r < t * c + c → s ≡ t
same_task c r s t a b a' b' =
    let p : s * c < suc t * c = omega arith in
    let q : t * c < suc s * c = omega arith in
    omega (arith, lt_of_mul-lt-mul_right c p, lt_of_mul-lt-mul_right c q)

pub positive : (k c : ℕ) {r : ℕ} → r < k * c → 0 < c
positive k zero h = absurd (omega arith)
positive k (suc c) h = omega arith

module _ ⦃fl : Floats⦄ where
  -- A run whose result has an output where its range has row r, and none otherwise.
  abbrev pub seen : Map Tensor
  seen = ("row", empty_tensor) ∷ []

  abbrev pub sees : ℕ → ℕ → ℕ → Result (Map Tensor)
  sees r a b = ok (if leb a r && ltb r b then seen else [])

module _ (n_rows n_threads r : ℕ) (h : 0 < n_threads) (b : r < n_rows) where
  reached : r < n_threads * chunk_size n_rows n_threads
  reached = omega (arith, chunks_reach n_rows n_threads h)

  chunk_pos : 0 < chunk_size n_rows n_threads
  chunk_pos = positive n_threads (chunk_size n_rows n_threads) reached

  -- One task takes row r.
  takes_one : (t : ℕ) × (t < n_threads) × ((s : ℕ) → takes n_rows n_threads s r ≡ (s == t))
  takes_one =
      let c = chunk_size n_rows n_threads in
      let lower = at_or_above r c in
      let upper = below_next r c chunk_pos in
      (
        r / c,
        lt_of_mul-lt-mul_right c (omega (arith, lower, reached)),
        λ s. elim (Bool-cases (s == r / c)) [
          | inl e ↦ let f : s ≡ r / c = ground arith in rw f (ground (arith, lower, upper))
          | inr e ↦ elim (Bool-cases (takes n_rows n_threads s r)) [
            | inl k ↦
                absurd (
                  ground (arith, same_task c r s (r / c) (ground arith) (ground arith) lower upper))
            | inr k ↦ k ∙ sym e
          ]
        ],
      )

  module _ ⦃fl : Floats⦄ where
    task-takes :
        (s : ℕ)
        → task (sees r) n_rows (chunk_size n_rows n_threads) s
          ≡ ok (if takes n_rows n_threads s r then seen else [])
    unfolding task in_worker
    task-takes s = elim (Bool-cases (leb n_rows (s * chunk_size n_rows n_threads))) [
      | inl e ↦
          let none_taken : leb (s * chunk_size n_rows n_threads) r ≡ false = ground (arith, e, b) in
          rw (e, none_taken) refl
      | inr e ↦ rw e refl
    ]

    -- Where there is at least one thread, each row of a batch is in the range that one task below
    -- the number of threads runs on; every other task runs on a range without it, or does not run.
    pub one_task :
        (t : ℕ) × (t < n_threads)
        × ((s : ℕ)
            → task (sees r) n_rows (chunk_size n_rows n_threads) s
              ≡ ok (if s == t then seen else []))
    one_task =
        let (t, l, only) = takes_one in
        (t, l, λ s. task-takes s ∙ ap (λ q. ok (if q then seen else [])) (only s))

-- How many rows the tasks from t on have, and where those after t start.
pub count_next :
    (t k c n m : ℕ)
    → t * c < n
    → m ≡ min ((suc t + k) * c) n - suc t * c
    → min (t * c + c) n - t * c + m ≡ min ((t + suc k) * c) n - t * c
count_next t k c n m b e =
    let p : (suc t + k) * c ≡ t * c + c + k * c = omega arith in
    let q : (t + suc k) * c ≡ t * c + c + k * c = omega arith in
    let r : suc t * c ≡ t * c + c = omega arith in omega (arith, p, q, r, e)

pub starts_next :
    (t k c n m : ℕ)
    → t * c < n
    → m ≡ min ((suc t + k) * c) n - suc t * c
    → (m ≡ 0) ⊎ (suc t * c ≡ t * c + (min (t * c + c) n - t * c))
starts_next t k c n m b e = elim (Bool-cases (leb n (suc t * c))) [
  | inl f ↦ inl (ground arith)
  | inr f ↦ inr (ground arith)
]
