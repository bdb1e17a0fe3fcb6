-- ===== src/ThreadPool.antt =====
-- src/thread_pool.h, src/thread_pool.cpp: the pool as a state, and one function for each part of
-- the code that holds the mutex. A step of the system is one such part, by one thread.
pub mod Count
pub mod Steps
pub mod Invariant
pub mod Progress
pub mod Ending
pub mod Overlap
use omle_runtime.Prelude.{
  ℕ, ◌+◌, ◌-◌, ◌≡◌, Bool, true, false, ◌&&◌, List, [], ◌∷◌, ◌++◌, set, replicate, ltb, leb, ◌==◌,
  if◌then◌else◌,
}
use omle_runtime.Prelude.Int.{ℤ, pos, negsuc, eqb_ℤ}

-- Where a worker thread is in worker_loop, with its `local_gen`: waiting on the condition variable,
-- inside the call of `fn_` with a task, or returned.
pub data Worker : Type 0 where
  sleeping : ℤ → Worker
  running : ℕ → ℤ → Worker
  exited : Worker

-- ThreadPool. `blocked` says that a thread is inside parallel_for. `executed` is no field of the
-- class: it lists the tasks whose call of the current function has ended.
pub record Pool : Type 0 where
  pub workers : List Worker
  pub n_tasks : ℕ
  pub next_task : ℕ
  pub active : ℕ
  pub generation : ℕ
  pub stop : Bool
  pub blocked : Bool
  pub executed : List ℕ

-- ThreadPool(n_threads): no thread has reached its first wait, where `local_gen` is -1.
unfoldable pub new_pool : ℕ → Pool
new_pool n_threads = record {
  workers = replicate n_threads (sleeping (negsuc 0));
  n_tasks = 0;
  next_task = 0;
  active = 0;
  generation = 0;
  stop = false;
  blocked = false;
  executed = [];
}

-- parallel_for, up to its wait, for n_tasks > 0
unfoldable pub publish : ℕ → Pool → Pool
publish n p = record p {
  n_tasks = n;
  next_task = 0;
  active = 0;
  generation = p.generation + 1;
  blocked = true;
  executed = [];
}

-- the predicate of the wait in parallel_for
unfoldable pub is_done : Pool → Bool
is_done p = p.active == 0 && leb p.n_tasks p.next_task

-- The test of the inner loop of worker_loop, by worker i: it claims a task, or goes to wait.
unfoldable pub claim : ℕ → ℤ → Pool → Pool
claim i gen p =
    if ltb p.next_task p.n_tasks
    then record p {
      workers = set p.workers i (running p.next_task gen);
      next_task = p.next_task + 1;
      active = p.active + 1;
    }
    else record p { workers = set p.workers i (sleeping gen) }

-- the predicate of the wait in worker_loop
unfoldable pub is_called : ℤ → Pool → Bool
is_called gen p = if p.stop then true else if eqb_ℤ gen (pos p.generation) then false else true

-- Worker i wakes up.
unfoldable pub wake : ℕ → Pool → Pool
unfolding claim
wake i p =
    if p.stop then record p { workers = set p.workers i exited } else claim i (pos p.generation) p

-- Worker i comes back from its task.
unfoldable pub finish : ℕ → ℕ → ℤ → Pool → Pool
unfolding claim
finish i task gen p =
    claim i gen (record p { active = p.active - 1; executed = p.executed ++ (task ∷ []) })

-- parallel_for returns.
unfoldable pub return_ : Pool → Pool
return_ p = record p { blocked = false }

-- ~ThreadPool, up to the joins
unfoldable pub shut_down : Pool → Pool
shut_down p = record p { stop = true; generation = p.generation + 1 }

-- the test before cv_.notify_all() when a worker comes back from its task, on the pool before
unfoldable pub notifies : Pool → Bool
notifies p = p.active - 1 == 0 && leb p.n_tasks p.next_task
