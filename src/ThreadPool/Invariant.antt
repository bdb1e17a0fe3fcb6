-- ===== src/ThreadPool/Invariant.antt =====
-- The invariant of the pool, and what holds when parallel_for returns.
use omle_runtime.Prelude.{
  ℕ, ◌+◌, ◌≤◌, ◌<◌, ◌≡◌, refl, Bool, true, false, some, [], ◌∷◌, get_elem?, set, ltb, if◌then◌else◌,
  arith, Bool-cases, inl, inr,
}
use omle_runtime.Prelude.Int.{ℤ, pos, negsuc}
use omle_runtime.ThreadPool.{
  Worker, sleeping, running, exited, Pool, new_pool, publish, is_done, claim, wake, finish, return_,
  shut_down,
}
use omle_runtime.ThreadPool.Count.{
  one_if, count, count-append, sum_by, sum_by-set, busy, runs, fresh, ahead, gone, fresh-suc,
  ahead-suc, sum_by-replicate, runs-le-busy, le-sum_by,
}
use omle_runtime.ThreadPool.Steps.{
  Step, publishes, wakes, finishes, returns, shuts_down, Reach, starts, steps,
}

pub record IsSound (p : Pool) : Type 0 where
  -- `active_` counts the workers that hold a task.
  pub counted : p.active ≡ sum_by busy p.workers
  -- Each task below `next_task_` is held or executed, once, and no other is.
  pub claimed :
      (k : ℕ) → count k p.executed + sum_by (runs k) p.workers ≡ one_if (ltb k p.next_task)
  pub within : p.next_task ≤ p.n_tasks
  pub settled : p.blocked ≡ false → (p.active ≡ 0) × (p.n_tasks ≤ p.next_task)
  -- Who waits in the current generation found no task left.
  pub idle : 0 < sum_by (fresh p.generation) p.workers → p.n_tasks ≤ p.next_task
  pub current : sum_by (ahead p.generation) p.workers ≡ 0
  pub alive : p.stop ≡ false → sum_by gone p.workers ≡ 0
  pub closed : p.stop ≡ true → p.blocked ≡ false

-- The invariant but for worker `w`, which is about to test for a task.
record IsOpen (w : Worker) (p : Pool) : Type 0 where
  counted : p.active + busy w ≡ sum_by busy p.workers
  claimed :
      (k : ℕ)
      → count k p.executed + sum_by (runs k) p.workers ≡ one_if (ltb k p.next_task) + runs k w
  within : p.next_task ≤ p.n_tasks
  settled : p.blocked ≡ false → (p.active + busy w ≡ 0) × (p.n_tasks ≤ p.next_task)
  idle : 0 < sum_by (fresh p.generation) p.workers → p.n_tasks ≤ p.next_task
  current : sum_by (ahead p.generation) p.workers ≡ 0
  alive : p.stop ≡ false → sum_by gone p.workers ≡ 0
  closed : p.stop ≡ true → p.blocked ≡ false

module _ {p : Pool} (i : ℕ) (g : ℤ) (w : Worker) (here : get_elem? p.workers i ≡ some w)
    (known : ahead p.generation (sleeping g) ≡ 0) (o : IsOpen w p) where
  claim-IsSound : IsSound (claim i g p)
  unfolding claim
  claim-IsSound = elim (Bool-cases (ltb p.next_task p.n_tasks)) [
    | inl more ↦ rw more (record {
      counted =
          omega (arith, sum_by-set busy p.workers i (running p.next_task g) w here, o.counted);
      claimed = λ k.
          ground
            (arith, sum_by-set (runs k) p.workers i (running p.next_task g) w here, o.claimed k);
      within = ground arith;
      settled = ground (arith, o.settled);
      idle = ground (
        arith,
        sum_by-set (fresh p.generation) p.workers i (running p.next_task g) w here,
        o.idle,
      );
      current = ground (
        arith,
        sum_by-set (ahead p.generation) p.workers i (running p.next_task g) w here,
        o.current,
      );
      alive = ground (arith, sum_by-set gone p.workers i (running p.next_task g) w here, o.alive);
      closed = o.closed;
    })
    | inr none_left ↦ rw none_left (record {
      counted = omega (arith, sum_by-set busy p.workers i (sleeping g) w here, o.counted);
      claimed =
          λ k. ground (arith, sum_by-set (runs k) p.workers i (sleeping g) w here, o.claimed k);
      within = o.within;
      settled = ground (arith, o.settled);
      idle = ground arith;
      current =
          ground
            (arith, sum_by-set (ahead p.generation) p.workers i (sleeping g) w here, o.current);
      alive = ground (arith, sum_by-set gone p.workers i (sleeping g) w here, o.alive);
      closed = o.closed;
    })
  ]

module _ {p : Pool} (s : IsSound p) where
  pub publish-IsSound : (n : ℕ) → p.blocked ≡ false → p.stop ≡ false → IsSound (publish n p)
  unfolding publish
  publish-IsSound n free up = record {
    counted = ground (arith, s.settled, s.counted);
    claimed = λ k. ground (arith, s.settled, s.counted, runs-le-busy k p.workers);
    within = omega arith;
    settled = ground arith;
    idle = ground (arith, fresh-suc p.generation p.workers, s.current);
    current = omega (arith, ahead-suc p.generation p.workers, s.current);
    alive = s.alive;
    closed = λ e. ground arith;
  }

  wake_on :
      (i : ℕ) (g : ℤ) (b : Bool)
      → get_elem? p.workers i ≡ some (sleeping g)
      → p.stop ≡ b
      → IsSound (
          if b then record p { workers = set p.workers i exited } else claim i (pos p.generation) p)
  wake_on i g true here down = record {
    counted = omega (arith, sum_by-set busy p.workers i exited (sleeping g) here, s.counted);
    claimed =
        λ k. ground (arith, sum_by-set (runs k) p.workers i exited (sleeping g) here, s.claimed k);
    within = s.within;
    settled = s.settled;
    idle =
        ground
          (arith, sum_by-set (fresh p.generation) p.workers i exited (sleeping g) here, s.idle);
    current =
        ground
          (arith, sum_by-set (ahead p.generation) p.workers i exited (sleeping g) here, s.current);
    alive = λ up. ground arith;
    closed = s.closed;
  }
  wake_on i g false here up =
      claim-IsSound i (pos p.generation) (sleeping g) here (ground arith) (record {
        counted = omega (arith, s.counted);
        claimed = λ k. omega (arith, s.claimed k);
        within = s.within;
        settled = λ e. omega (arith, s.settled e);
        idle = s.idle;
        current = s.current;
        alive = s.alive;
        closed = s.closed;
      })

  wake-IsSound : (i : ℕ) (g : ℤ) → get_elem? p.workers i ≡ some (sleeping g) → IsSound (wake i p)
  unfolding wake
  wake-IsSound i g here = wake_on i g p.stop here refl

  finish-IsSound :
      (i k : ℕ) (g : ℤ) → get_elem? p.workers i ≡ some (running k g) → IsSound (finish i k g p)
  unfolding finish
  finish-IsSound i k g here =
      claim-IsSound i g (running k g) here
        (omega (arith, le-sum_by (ahead p.generation) p.workers i (running k g) here, s.current))
        (record {
          counted = omega (arith, le-sum_by busy p.workers i (running k g) here, s.counted);
          claimed = λ j. omega (arith, count-append j p.executed (k ∷ []), s.claimed j);
          within = s.within;
          settled = λ e.
              omega (arith, le-sum_by busy p.workers i (running k g) here, s.counted, s.settled e);
          idle = s.idle;
          current = s.current;
          alive = s.alive;
          closed = s.closed;
        })

  shut_down-IsSound : p.blocked ≡ false → IsSound (shut_down p)
  unfolding shut_down
  shut_down-IsSound free = record {
    counted = s.counted;
    claimed = s.claimed;
    within = s.within;
    settled = s.settled;
    idle = ground (arith, fresh-suc p.generation p.workers, s.current);
    current = omega (arith, ahead-suc p.generation p.workers, s.current);
    alive = λ e. cc;
    closed = λ _. free;
  }

  return_-IsSound : is_done p ≡ true → IsSound (return_ p)
  unfolding return_ is_done
  return_-IsSound done = record {
    counted = s.counted;
    claimed = s.claimed;
    within = s.within;
    settled = λ _. ground arith;
    idle = s.idle;
    current = s.current;
    alive = s.alive;
    closed = λ _. refl;
  }

new_pool-IsSound : (n : ℕ) → IsSound (new_pool n)
unfolding new_pool sum_by
new_pool-IsSound n = record {
  counted = omega (arith, sum_by-replicate busy (sleeping (negsuc 0)) n refl);
  claimed = λ k. ground (arith, sum_by-replicate (runs k) (sleeping (negsuc 0)) n refl);
  within = omega arith;
  settled = λ _. omega arith;
  idle = λ _. omega arith;
  current = sum_by-replicate (ahead 0) (sleeping (negsuc 0)) n refl;
  alive = λ _. sum_by-replicate gone (sleeping (negsuc 0)) n refl;
  closed = λ e. refl;
}

pub Step-IsSound : (p q : Pool) → Step p q → IsSound p → IsSound q
Step-IsSound p q (publishes n h free up e) s = rw e (publish-IsSound s n free up)
Step-IsSound p q (wakes i g here called e) s = rw e (wake-IsSound s i g here)
Step-IsSound p q (finishes i k g here e) s = rw e (finish-IsSound s i k g here)
Step-IsSound p q (returns busy_ done e) s = rw e (return_-IsSound s done)
Step-IsSound p q (shuts_down free e) s = rw e (shut_down-IsSound s free)

-- Whatever the threads do, in whatever order, the pool keeps its invariant.
pub Reach-IsSound : (n : ℕ) (q : Pool) → Reach n q → IsSound q
Reach-IsSound n _ (starts q e) = rw e (new_pool-IsSound n)
Reach-IsSound n _ (steps p q r st) = Step-IsSound p q st (Reach-IsSound n p r)

-- In every reachable state where the wait of parallel_for is over, each task from 0 to n_tasks - 1
-- has been executed exactly once, and nothing else has been.
pub exactly_once :
    (n : ℕ) (q : Pool) (k : ℕ)
    → Reach n q
    → is_done q ≡ true
    → count k q.executed ≡ (if ltb k q.n_tasks then 1 else 0)
unfolding is_done
exactly_once n q k r done =
    let s = Reach-IsSound n q r in
    ground (arith, s.counted, s.claimed k, s.within, runs-le-busy k q.workers)
