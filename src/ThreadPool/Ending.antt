-- ===== src/ThreadPool/Ending.antt =====
-- parallel_for ends, and the worker that ends the last task wakes it.
use omle_runtime.Prelude.{
  ℕ, zero, suc, ◌+◌, ◌≤◌, ◌<◌, ◌≡◌, refl, true, false, some, get_elem?, length, ltb, if◌then◌else◌,
  arith, Bool-cases, inl, inr, ◌∙◌, ap,
}
use omle_runtime.Prelude.Int.{ℤ}
use omle_runtime.ThreadPool.{running, Pool, is_done, claim, wake, finish, notifies}
use omle_runtime.ThreadPool.Count.{count}
use omle_runtime.ThreadPool.Steps.{Reach, steps}
use omle_runtime.ThreadPool.Invariant.{IsSound, Step-IsSound, Reach-IsSound, exactly_once}
use omle_runtime.ThreadPool.Progress.{
  work_left, Move, wakes_up, comes_back, Move-Step, Move-lt, sound_can_progress, Step-length,
  Reach-length,
}

-- so many moves of workers, one after the other
pub data Moves (p : Pool) : ℕ → Pool → Type 0 where
  none_made : Moves p zero p
  one_more : {k : ℕ} {q r : Pool} → Moves p k q → Move q r → Moves p (suc k) r

abbrev pub SameJob : Pool → Pool → Type 0
SameJob p q = (q.n_tasks ≡ p.n_tasks) × (q.blocked ≡ p.blocked) × (q.stop ≡ p.stop)

pub Move-SameJob : (p q : Pool) → Move p q → SameJob p q
unfolding wake finish claim
Move-SameJob p q (wakes_up i g here called e) = rw e (ground arith)
Move-SameJob p q (comes_back i k g here e) = rw e (ground arith)

pub Moves-IsSound : {p : Pool} {k : ℕ} {q : Pool} → IsSound p → Moves p k q → IsSound q
Moves-IsSound s none_made = s
Moves-IsSound s (one_more ms m) = Step-IsSound _ _ (Move-Step _ _ m) (Moves-IsSound s ms)

pub Moves-Reach : {n : ℕ} {p : Pool} {k : ℕ} {q : Pool} → Reach n p → Moves p k q → Reach n q
Moves-Reach r none_made = r
Moves-Reach r (one_more ms m) = steps _ _ (Moves-Reach r ms) (Move-Step _ _ m)

pub Moves-SameJob : {p : Pool} {k : ℕ} {q : Pool} → Moves p k q → SameJob p q
Moves-SameJob none_made = (refl, refl, refl)
Moves-SameJob (one_more ms m) =
    let (a, b, c) = Moves-SameJob ms in
    let (a', b', c') = Move-SameJob _ _ m in (a' ∙ a, b' ∙ b, c' ∙ c)

-- From a reachable state of a pool that is not stopped, k moves of the workers in any order take
-- at least k from `work_left`.
pub Moves-le :
    (n : ℕ) (p : Pool) {k : ℕ} {q : Pool}
    → Reach n p
    → p.stop ≡ false
    → Moves p k q
    → k + work_left q ≤ work_left p
Moves-le n p r up none_made = omega arith
Moves-le n p r up (one_more {q = q'} ms m) = omega (
  arith,
  Moves-le n p r up ms,
  Move-lt q' _ (Reach-IsSound n q' (Moves-Reach r ms)) ((Moves-SameJob ms).2 ∙ up) m,
)

Moves-cons : {p q : Pool} {k : ℕ} {r : Pool} → Move p q → Moves q k r → Moves p (suc k) r
Moves-cons m none_made = one_more none_made m
Moves-cons m (one_more ms last) = one_more (Moves-cons m ms) last

up_when_blocked : (p : Pool) → IsSound p → p.blocked ≡ true → p.stop ≡ false
up_when_blocked p s blocked = ground (arith, s.closed)

pub end_within :
    (fuel n : ℕ) (p : Pool)
    → 0 < n
    → IsSound p
    → length p.workers ≡ n
    → p.blocked ≡ true
    → work_left p ≤ fuel
    → (k : ℕ) × (q : Pool) × Moves p k q × (is_done q ≡ true)
end_within zero n p h s len blocked enough = elim (Bool-cases (is_done p)) [
  | inl done ↦ (0, p, none_made, done)
  | inr more ↦
      let (q, m) = sound_can_progress n p h s len blocked more in
      absurd (omega (arith, Move-lt p q s (up_when_blocked p s blocked) m))
]
end_within (suc fuel) n p h s len blocked enough = elim (Bool-cases (is_done p)) [
  | inl done ↦ (0, p, none_made, done)
  | inr more ↦
      let (q, m) = sound_can_progress n p h s len blocked more in
      let st = Move-Step p q m in
      let less = Move-lt p q s (up_when_blocked p s blocked) m in
      let still = (Move-SameJob p q m).1 ∙ blocked in
      let (k, t, ms, done) =
        end_within fuel n q h (Step-IsSound p q st s) (Step-length p q st ∙ len) still
          (omega arith) in
      (suc k, t, Moves-cons m ms, done)
]

-- From every reachable state of a pool with at least one thread where a caller is blocked in
-- parallel_for, some sequence of moves of the workers alone leads to a state where its wait is
-- over and each task below the blocked caller's n_tasks has been executed exactly once, and
-- nothing else.
pub parallel_for_ends :
    (n : ℕ) (p : Pool)
    → 0 < n
    → Reach n p
    → p.blocked ≡ true
    → (k : ℕ) × (q : Pool) × Moves p k q
      × (is_done q ≡ true)
      × ((j : ℕ) → count j q.executed ≡ (if ltb j p.n_tasks then 1 else 0))
parallel_for_ends n p h r blocked =
    let (k, q, ms, done) =
      end_within (work_left p) n p h (Reach-IsSound n p r) (Reach-length n p r) blocked
        (omega arith) in
    (
      k,
      q,
      ms,
      done,
      λ j.
          exactly_once n q j (Moves-Reach r ms) done
          ∙ ap (λ t. if ltb j t then 1 else 0) (Moves-SameJob ms).0,
    )

-- Whenever a move of a worker in a reachable state of a pool that is not stopped ends the wait of
-- parallel_for, the worker came back from a task and its test says that it notifies.
pub no_lost_wakeup :
    (n : ℕ) (p q : Pool)
    → Reach n p
    → p.stop ≡ false
    → Move p q
    → is_done p ≡ false
    → is_done q ≡ true
    → (i : ℕ) × (k : ℕ) × (g : ℤ) × (get_elem? p.workers i ≡ some (running k g))
      × (q ≡ finish i k g p)
      × (notifies p ≡ true)
unfolding is_done notifies wake finish claim
no_lost_wakeup n p q r up (wakes_up i g here called e) before after =
    let after' : is_done (wake i p) ≡ true = rw e at after in absurd (ground arith)
no_lost_wakeup n p q r up (comes_back i k g here e) before after =
    let after' : is_done (finish i k g p) ≡ true = rw e at after in (i, k, g, here, e, ground arith)
