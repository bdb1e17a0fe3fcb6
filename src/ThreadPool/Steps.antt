-- ===== src/ThreadPool/Steps.antt =====
-- The pool as a transition system: its threads run the parts of src/thread_pool.cpp in any order.
use omle_runtime.Prelude.{ℕ, ◌<◌, ◌≡◌, true, false, some, get_elem?}
use omle_runtime.Prelude.Int.{ℤ}
use omle_runtime.ThreadPool.{
  Pool, sleeping, running, new_pool, publish, is_done, is_called, wake, finish, return_, shut_down,
}

-- One critical section of one thread. A caller enters parallel_for only while no other is inside.
pub data Step (p q : Pool) : Type 0 where
  publishes : (n : ℕ) → 0 < n → p.blocked ≡ false → p.stop ≡ false → q ≡ publish n p → Step p q
  wakes :
      (i : ℕ) (g : ℤ)
      → get_elem? p.workers i ≡ some (sleeping g)
      → is_called g p ≡ true
      → q ≡ wake i p
      → Step p q
  finishes :
      (i k : ℕ) (g : ℤ) → get_elem? p.workers i ≡ some (running k g) → q ≡ finish i k g p → Step p q
  returns : p.blocked ≡ true → is_done p ≡ true → q ≡ return_ p → Step p q
  shuts_down : p.blocked ≡ false → q ≡ shut_down p → Step p q

-- What a pool of `n` threads can come to.
pub data Reach (n : ℕ) : Pool → Type 0 where
  starts : (q : Pool) → q ≡ new_pool n → Reach n q
  steps : (p q : Pool) → Reach n p → Step p q → Reach n q
