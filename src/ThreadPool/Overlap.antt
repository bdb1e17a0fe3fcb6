-- ===== src/ThreadPool/Overlap.antt =====
-- Two callers inside parallel_for at once: the second takes the pool away from the first.
use omle_runtime.Prelude.{ℕ, ◌+◌, ◌<◌, ◌≡◌, refl, true, false, ltb, if◌then◌else◌, arith}
use omle_runtime.ThreadPool.{Pool, publish, is_done}
use omle_runtime.ThreadPool.Count.{fresh-suc, ahead-suc, runs-le-busy, count}
use omle_runtime.ThreadPool.Steps.{Reach}
use omle_runtime.ThreadPool.Invariant.{IsSound, Reach-IsSound, publish-IsSound}
use omle_runtime.ThreadPool.Progress.{work_left, Reach-length}
use omle_runtime.ThreadPool.Ending.{Moves, Moves-IsSound, Moves-SameJob, end_within}

-- A second publish before any worker has moved keeps the invariant: it is the first job that is lost.
publish_twice-IsSound :
    (p : Pool) (n m : ℕ)
    → IsSound p
    → p.blocked ≡ false
    → p.stop ≡ false
    → IsSound (publish m (publish n p))
unfolding publish
publish_twice-IsSound p n m s free up =
    let q = publish n p in
    let t = publish-IsSound s n free up in
    record {
      counted = ground (arith, s.settled, s.counted);
      claimed = λ k. ground (arith, s.settled, s.counted, runs-le-busy k p.workers);
      within = omega arith;
      settled = ground arith;
      idle = ground (arith, fresh-suc (p.generation + 1) p.workers, t.current);
      current = omega (arith, ahead-suc (p.generation + 1) p.workers, t.current);
      alive = s.alive;
      closed = λ e. ground arith;
    }

-- If a second caller publishes m tasks, 0 < m < n, before a worker has moved for the first
-- caller's n, then there are moves of the workers to a state where the wait of both callers is
-- over and just the tasks below m have been executed.
pub overlap_loses :
    (threads n m : ℕ) (p : Pool)
    → 0 < threads
    → Reach threads p
    → p.blocked ≡ false
    → p.stop ≡ false
    → 0 < m
    → m < n
    → (k : ℕ) × (q : Pool) × Moves (publish m (publish n p)) k q
      × (is_done q ≡ true)
      × ((j : ℕ) → count j q.executed ≡ (if ltb j m then 1 else 0))
unfolding is_done publish
overlap_loses threads n m p h r free up some_tasks less =
    let twice = publish m (publish n p) in
    let s = publish_twice-IsSound p n m (Reach-IsSound threads p r) free up in
    let (k, q, ms, done) =
      end_within (work_left twice) threads twice h s (Reach-length threads p r) refl
        (omega arith) in
    let t = Moves-IsSound s ms in
    let same_tasks = (Moves-SameJob ms).0 in
    (
      k,
      q,
      ms,
      done,
      λ j. ground (arith, t.claimed j, t.within, runs-le-busy j q.workers, t.counted),
    )
