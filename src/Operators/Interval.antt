-- ===== src/Operators/Interval.antt =====
-- src/operator_registry.cpp, op_quantile_transformer: the search for the interval of a value ends.
use omle_runtime.Prelude.{
  ℕ, zero, suc, ◌+◌, ◌/◌, ◌≤◌, ◌<◌, ◌≡◌, refl, arith, true, false, Bool-cases, inl, inr, List, ltb,
}
use omle_runtime.Floats.{Floats, F64}
use omle_runtime.Status.{ok}
use omle_runtime.Tensor.{Cell}
use omle_runtime.Operators.Gathered.{entry_of}
use omle_runtime.Operators.Transforms.{interval_of}

module _ ⦃fl : Floats⦄ (refs : List Cell) (base : ℕ) (v : ℕ → F64) (x : F64) where
  open fl use {f64}

  -- Neighbouring references between lo and hi, the lower one not above x and the upper one above it.
  pub record Encloses (lo hi : ℕ) (found : ℕ × ℕ) : Type 0 where
    pub neighbours : suc found.0 ≡ found.1
    pub from_lo : lo ≤ found.0
    pub to_hi : found.1 ≤ hi
    pub not_above : f64.lt x (v found.0) ≡ false
    pub above : f64.lt x (v found.1) ≡ true

  -- The search of op_quantile_transformer for the interval of a value between two references, all
  -- readable below the upper one, of which the lower one is not above the value and the upper one
  -- is: as many rounds as there are references between the two are enough for it to return two
  -- neighbouring references, within the bounds, the lower one not above the value and the upper
  -- one above it.
  pub interval_of-Encloses :
      (fuel lo hi : ℕ)
      → ((i : ℕ) → i < hi → entry_of refs (base + i) ≡ ok (v i))
      → lo < hi
      → hi ≤ lo + suc fuel
      → f64.lt x (v lo) ≡ false
      → f64.lt x (v hi) ≡ true
      → (found : ℕ × ℕ) × (interval_of fuel refs base x lo hi ≡ ok found) × Encloses lo hi found
  unfolding interval_of
  interval_of-Encloses zero lo hi reads l enough below up = (
    (lo, hi),
    refl,
    record {
      neighbours = omega arith;
      from_lo = omega arith;
      to_hi = omega arith;
      not_above = below;
      above = up;
    },
  )
  interval_of-Encloses (suc fuel) lo hi reads l enough below up =
      elim (Bool-cases (ltb (lo + 1) hi)) [
        | inr e ↦ (
          (lo, hi),
          rw e refl,
          record {
            neighbours = ground (arith, e);
            from_lo = omega arith;
            to_hi = omega arith;
            not_above = below;
            above = up;
          },
        )
        | inl e ↦
            let mid = (lo + hi) / 2 in
            let more : lo + 1 < hi = ground (arith, e) in
            let between : (lo < mid) × (mid < hi) = (omega arith, omega arith) in
            let read = reads mid between.1 in
            elim (Bool-cases (f64.lt x (v mid))) [
              | inl h ↦
                  let (found, p, q) =
                    interval_of-Encloses fuel lo mid (λ i b. reads i (omega arith)) between.0
                      (omega arith) below h in
                  (
                    found,
                    rw (e, read, h) p,
                    record {
                      neighbours = q.neighbours;
                      from_lo = q.from_lo;
                      to_hi = omega (arith, q.to_hi);
                      not_above = q.not_above;
                      above = q.above;
                    },
                  )
              | inr h ↦
                  let (found, p, q) =
                    interval_of-Encloses fuel mid hi reads between.1 (omega arith) h up in
                  (
                    found,
                    rw (e, read, h) p,
                    record {
                      neighbours = q.neighbours;
                      from_lo = omega (arith, q.from_lo);
                      to_hi = q.to_hi;
                      not_above = q.not_above;
                      above = q.above;
                    },
                  )
            ]
      ]
