-- ===== src/Tests/Pool.antt =====
-- Examples for the thread pool: pools of one and two threads.
use omle_runtime.Prelude.{
  ℕ, ◌+◌, ◌≤◌, ◌≡◌, refl, true, false, some, get_elem?, arith, if◌then◌else◌, ltb,
}
use omle_runtime.Prelude.Int.{ℤ, pos, negsuc}
use omle_runtime.ThreadPool.{
  Pool, running, new_pool, publish, is_done, is_called, wake, finish, claim, notifies,
}
use omle_runtime.ThreadPool.Count.{count}
use omle_runtime.ThreadPool.Steps.{Reach, starts, steps, publishes, wakes, finishes}
use omle_runtime.ThreadPool.Invariant.{exactly_once}
use omle_runtime.ThreadPool.Progress.{work_left, Move, wakes_up, comes_back, can_progress}
use omle_runtime.ThreadPool.Ending.{
  Moves, none_made, one_more, Moves-le, parallel_for_ends, no_lost_wakeup,
}
use omle_runtime.ThreadPool.Overlap.{overlap_loses}

abbrev called : Pool
called = publish 1 (new_pool 1)

abbrev at_work : Pool
at_work = wake 0 called

abbrev finished : Pool
finished = finish 0 0 (pos 1) at_work

called-Reach : Reach 1 called
unfolding new_pool
called-Reach = steps _ _ (starts _ refl) (publishes 1 (omega arith) refl refl refl)

wake_called : Move called at_work
unfolding new_pool publish is_called
wake_called = wakes_up 0 (negsuc 0) refl refl refl

finish_work : Move at_work finished
unfolding new_pool publish wake claim
finish_work = comes_back 0 0 (pos 1) refl refl

at_work-Reach : Reach 1 at_work
unfolding new_pool publish is_called
at_work-Reach = steps _ _ called-Reach (wakes 0 (negsuc 0) refl refl refl)

finished-Reach : Reach 1 finished
unfolding new_pool publish wake claim
finished-Reach = steps _ _ at_work-Reach (finishes 0 0 (pos 1) refl refl)

finished-done : is_done finished ≡ true
unfolding new_pool publish wake claim finish is_done
finished-done = refl

called-blocked : called.blocked ≡ true
unfolding publish
called-blocked = refl

called-up : called.stop ≡ false
unfolding publish new_pool
called-up = refl

exactly_once_example : count 0 finished.executed ≡ (if ltb 0 finished.n_tasks then 1 else 0)
exactly_once_example = exactly_once 1 finished 0 finished-Reach finished-done

parallel_for_ends_example :
    (k : ℕ) × (q : Pool) × Moves called k q
    × (is_done q ≡ true)
    × ((j : ℕ) → count j q.executed ≡ (if ltb j called.n_tasks then 1 else 0))
parallel_for_ends_example = parallel_for_ends 1 called (omega arith) called-Reach called-blocked

can_progress_example : (q : Pool) × Move called q
unfolding is_done publish new_pool
can_progress_example = can_progress 1 called (omega arith) called-Reach called-blocked refl

Moves-le_example : 1 + work_left at_work ≤ work_left called
Moves-le_example = Moves-le 1 called called-Reach called-up (one_more none_made wake_called)

no_lost_wakeup_example :
    (i : ℕ) × (k : ℕ) × (g : ℤ) × (get_elem? at_work.workers i ≡ some (running k g))
    × (finished ≡ finish i k g at_work)
    × (notifies at_work ≡ true)
unfolding is_done publish new_pool wake claim
no_lost_wakeup_example =
    no_lost_wakeup 1 at_work finished at_work-Reach refl finish_work refl finished-done

overlap_loses_example :
    (k : ℕ) × (q : Pool) × Moves (publish 1 (publish 3 (new_pool 2))) k q
    × (is_done q ≡ true)
    × ((j : ℕ) → count j q.executed ≡ (if ltb j 1 then 1 else 0))
unfolding new_pool
overlap_loses_example =
    overlap_loses 2 3 1 (new_pool 2) (omega arith) (starts _ refl) refl refl (omega arith)
      (omega arith)
