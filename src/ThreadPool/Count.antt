-- ===== src/ThreadPool/Count.antt =====
-- Counts over the workers of a pool, and how a change of one worker changes them.
use omle_runtime.Prelude.{
  ℕ, zero, suc, ◌+◌, ◌≤◌, ◌<◌, ◌≡◌, refl, Bool, some, List, [], ◌∷◌, ◌++◌, get_elem?, set,
  replicate, ltb, ◌==◌, if◌then◌else◌, arith,
}
use omle_runtime.Prelude.Int.{ℤ, pos, negsuc, eqb_ℤ}
use omle_runtime.ThreadPool.{Worker, sleeping, running, exited}

abbrev pub one_if : Bool → ℕ
one_if b = if b then 1 else 0

-- How often a task is in a list.
abbrev pub count : ℕ → List ℕ → ℕ
count k [] = 0
count k (x ∷ xs) = one_if (x == k) + count k xs

pub count-append : (k : ℕ) (xs ys : List ℕ) → count k (xs ++ ys) ≡ count k xs + count k ys
count-append k [] ys = omega arith
count-append k (x ∷ xs) ys = omega (arith, count-append k xs ys)

unfoldable pub sum_by : (Worker → ℕ) → List Worker → ℕ
sum_by f [] = 0
sum_by f (w ∷ ws) = f w + sum_by f ws

pub sum_by-set :
    (f : Worker → ℕ) (ws : List Worker) (i : ℕ) (v w : Worker)
    → get_elem? ws i ≡ some w
    → sum_by f (set ws i v) + f w ≡ sum_by f ws + f v
unfolding sum_by
sum_by-set f [] i v w h = cc
sum_by-set f (x ∷ ws) zero v w h = ground arith
sum_by-set f (x ∷ ws) (suc i) v w h = omega (arith, sum_by-set f ws i v w h)

pub le-sum_by :
    (f : Worker → ℕ) (ws : List Worker) (i : ℕ) (w : Worker)
    → get_elem? ws i ≡ some w
    → f w ≤ sum_by f ws
unfolding sum_by
le-sum_by f [] i w h = cc
le-sum_by f (x ∷ ws) zero w h = ground arith
le-sum_by f (x ∷ ws) (suc i) w h = omega (arith, le-sum_by f ws i w h)

-- in the call of a task
abbrev pub busy : Worker → ℕ
busy (running k g) = 1
busy _ = 0

-- in the call of this task
abbrev pub runs : ℕ → Worker → ℕ
runs k (running j g) = one_if (j == k)
runs k _ = 0

-- waiting, and up to date with the generation
abbrev pub fresh : ℕ → Worker → ℕ
fresh n (sleeping g) = one_if (eqb_ℤ g (pos n))
fresh n _ = 0

-- waiting, and behind
abbrev pub stale : ℕ → Worker → ℕ
stale n (sleeping g) = if eqb_ℤ g (pos n) then 0 else 1
stale n _ = 0

abbrev later : ℕ → ℤ → ℕ
later n (pos g) = one_if (ltb n g)
later n (negsuc g) = 0

-- with a `local_gen` beyond the generation
abbrev pub ahead : ℕ → Worker → ℕ
ahead n (sleeping g) = later n g
ahead n (running k g) = later n g
ahead n exited = 0

abbrev pub gone : Worker → ℕ
gone exited = 1
gone _ = 0

pub runs-le-busy : (k : ℕ) (ws : List Worker) → sum_by (runs k) ws ≤ sum_by busy ws
unfolding sum_by
runs-le-busy k [] = omega arith
runs-le-busy k (w ∷ ws) = ground (arith, runs-le-busy k ws)

-- Nobody is up to date with the next generation.
pub fresh-suc : (n : ℕ) (ws : List Worker) → sum_by (fresh (n + 1)) ws ≤ sum_by (ahead n) ws
unfolding sum_by
fresh-suc n [] = omega arith
fresh-suc n (sleeping (pos g) ∷ ws) = ground (arith, fresh-suc n ws)
fresh-suc n (sleeping (negsuc g) ∷ ws) = ground (arith, fresh-suc n ws)
fresh-suc n (running k g ∷ ws) = ground (arith, fresh-suc n ws)
fresh-suc n (exited ∷ ws) = ground (arith, fresh-suc n ws)

pub ahead-suc : (n : ℕ) (ws : List Worker) → sum_by (ahead (n + 1)) ws ≤ sum_by (ahead n) ws
unfolding sum_by
ahead-suc n [] = omega arith
ahead-suc n (sleeping (pos g) ∷ ws) = ground (arith, ahead-suc n ws)
ahead-suc n (sleeping (negsuc g) ∷ ws) = ground (arith, ahead-suc n ws)
ahead-suc n (running k (pos g) ∷ ws) = ground (arith, ahead-suc n ws)
ahead-suc n (running k (negsuc g) ∷ ws) = ground (arith, ahead-suc n ws)
ahead-suc n (exited ∷ ws) = ground (arith, ahead-suc n ws)

pub sum_by-replicate :
    (f : Worker → ℕ) (w : Worker) (n : ℕ) → f w ≡ 0 → sum_by f (replicate n w) ≡ 0
unfolding sum_by
sum_by-replicate f w zero h = refl
sum_by-replicate f w (suc n) h = omega (arith, sum_by-replicate f w n h)

-- Where the count of busy workers is not 0 there is one.
pub find_busy :
    (ws : List Worker)
    → 0 < sum_by busy ws
    → (i : ℕ) × (k : ℕ) × (g : ℤ) × (get_elem? ws i ≡ some (running k g))
unfolding sum_by
find_busy [] h = absurd (omega arith)
find_busy (running k g ∷ ws) h = (0, k, g, refl)
find_busy (sleeping g ∷ ws) h = let (i, k, g', e) = find_busy ws (omega arith) in (suc i, k, g', e)
find_busy (exited ∷ ws) h = let (i, k, g', e) = find_busy ws (omega arith) in (suc i, k, g', e)
