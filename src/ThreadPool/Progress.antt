-- ===== src/ThreadPool/Progress.antt =====
-- parallel_for ends: some worker can move while it waits, and every move brings the end nearer.
use omle_runtime.Prelude.{
  ℕ, ◌+◌, ◌-◌, ◌*◌, ◌<◌, ◌≡◌, refl, true, false, some, List, [], ◌∷◌, length, get_elem?, ltb, arith,
  Bool-cases, inl, inr, length-set, length-replicate, ◌∙◌,
}
use omle_runtime.Prelude.Int.{ℤ, pos, negsuc}
use omle_runtime.ThreadPool.{
  Worker, sleeping, running, exited, Pool, is_done, is_called, claim, wake, finish, new_pool,
  publish, return_, shut_down,
}
use omle_runtime.ThreadPool.Count.{
  sum_by, sum_by-set, le-sum_by, busy, fresh, stale, gone, find_busy,
}
use omle_runtime.ThreadPool.Steps.{
  Step, publishes, wakes, finishes, returns, shuts_down, Reach, starts, steps,
}
use omle_runtime.ThreadPool.Invariant.{IsSound, Reach-IsSound}

-- What is left to do: tasks to claim, tasks to end, and workers to wake.
pub work_left : Pool → ℕ
work_left p = 2 * (p.n_tasks - p.next_task) + (2 * p.active + sum_by (stale p.generation) p.workers)

-- A move of a worker: it wakes, or it comes back from its task.
pub data Move (p q : Pool) : Type 0 where
  wakes_up :
      (i : ℕ) (g : ℤ)
      → get_elem? p.workers i ≡ some (sleeping g)
      → is_called g p ≡ true
      → q ≡ wake i p
      → Move p q
  comes_back :
      (i k : ℕ) (g : ℤ) → get_elem? p.workers i ≡ some (running k g) → q ≡ finish i k g p → Move p q

pub Move-Step : (p q : Pool) → Move p q → Step p q
Move-Step p q (wakes_up i g here called e) = wakes i g here called e
Move-Step p q (comes_back i k g here e) = finishes i k g here e

wake-lt :
    (p : Pool) (i : ℕ) (g : ℤ)
    → get_elem? p.workers i ≡ some (sleeping g)
    → is_called g p ≡ true
    → p.stop ≡ false
    → work_left (wake i p) < work_left p
unfolding work_left wake claim is_called
wake-lt p i g here called up = ground (
  arith,
  sum_by-set (stale p.generation) p.workers i (running p.next_task (pos p.generation)) (sleeping g)
      here,
  sum_by-set (stale p.generation) p.workers i (sleeping (pos p.generation)) (sleeping g) here,
)

finish-lt :
    (p : Pool) (i k : ℕ) (g : ℤ)
    → IsSound p
    → get_elem? p.workers i ≡ some (running k g)
    → work_left (finish i k g p) < work_left p
unfolding work_left finish claim
finish-lt p i k g s here = ground (
  arith,
  sum_by-set (stale p.generation) p.workers i (running p.next_task g) (running k g) here,
  sum_by-set (stale p.generation) p.workers i (sleeping g) (running k g) here,
  le-sum_by busy p.workers i (running k g) here,
  s.counted,
)

pub Move-lt : (p q : Pool) → IsSound p → p.stop ≡ false → Move p q → work_left q < work_left p
Move-lt p q s up (wakes_up i g here called e) = rw e (wake-lt p i g here called up)
Move-lt p q s up (comes_back i k g here e) = rw e (finish-lt p i k g s here)

length-claim : (i : ℕ) (g : ℤ) (p : Pool) → length (claim i g p).workers ≡ length p.workers
unfolding claim
length-claim i g p =
    ground
      (arith, length-set p.workers i (running p.next_task g), length-set p.workers i (sleeping g))

pub Step-length : (p q : Pool) → Step p q → length q.workers ≡ length p.workers
unfolding publish wake finish return_ shut_down
Step-length p q (publishes n h free up e) = rw e
Step-length p q (wakes i g here called e) =
    rw e (ground (arith, length-claim i (pos p.generation) p, length-set p.workers i exited))
Step-length p q (finishes i k g here e) = rw e (length-claim i g _)
Step-length p q (returns b done e) = rw e
Step-length p q (shuts_down free e) = rw e

pub Reach-length : (n : ℕ) (q : Pool) → Reach n q → length q.workers ≡ n
unfolding new_pool
Reach-length n _ (starts q e) = rw e (length-replicate n (sleeping (negsuc 0)))
Reach-length n _ (steps p q r st) = Step-length p q st ∙ Reach-length n p r

-- the first worker of a pool where nobody is busy, gone or up to date
first_moves :
    (p : Pool) (ws : List Worker)
    → p.workers ≡ ws
    → 0 < length ws
    → sum_by busy ws ≡ 0
    → sum_by gone ws ≡ 0
    → sum_by (fresh p.generation) ws ≡ 0
    → (q : Pool) × Move p q
unfolding sum_by is_called
first_moves p [] e h b o f = absurd (omega arith)
first_moves p (sleeping g ∷ ws) e h b o f = (wake 0 p, wakes_up 0 g (rw e) (ground arith) refl)
first_moves p (running k g ∷ ws) e h b o f = absurd (omega arith)
first_moves p (exited ∷ ws) e h b o f = absurd (omega arith)

pub sound_can_progress :
    (n : ℕ) (p : Pool)
    → 0 < n
    → IsSound p
    → length p.workers ≡ n
    → p.blocked ≡ true
    → is_done p ≡ false
    → (q : Pool) × Move p q
unfolding is_done
sound_can_progress n p h s len blocked more = elim (Bool-cases (ltb 0 p.active)) [
  | inl some_busy ↦
      let (i, k, g, here) = find_busy p.workers (ground (arith, s.counted)) in
      (finish i k g p, comes_back i k g here refl)
  | inr nobody ↦
      first_moves p p.workers refl (omega arith) (ground (arith, s.counted))
        (ground (arith, s.alive, s.closed)) (ground (arith, s.idle))
]

-- In every reachable state of a pool with at least one thread where a caller is blocked and its
-- wait is not over, some worker can move.
pub can_progress :
    (n : ℕ) (p : Pool)
    → 0 < n
    → Reach n p
    → p.blocked ≡ true
    → is_done p ≡ false
    → (q : Pool) × Move p q
can_progress n p h r = sound_can_progress n p h (Reach-IsSound n p r) (Reach-length n p r)
