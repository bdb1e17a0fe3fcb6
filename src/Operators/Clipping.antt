-- ===== src/Operators/Clipping.antt =====
-- src/operator_registry.cpp, op_clip: what the bounds do to the elements of a tensor.
use omle_runtime.Prelude.{
  ℕ, zero, suc, ◌+◌, ◌≡◌, ◌⊎◌, refl, sym, ap, ◌∙◌, arith, Bool, true, false, Bool-cases, inl, inr,
  List, [], ◌∷◌, ◌++◌, drop, length, length-append,
}
use omle_runtime.Floats.{Floats, Float, F32, F64}
use omle_runtime.Status.{Result, ok, ok-injective, >>=-eq-ok, ◌>>=◌}
use omle_runtime.Tensor.{
  Kind, dense, sparse, scalar, Cell, Tensor, float_cell, double_cell, read_f32, read_f64, numel,
}
use omle_runtime.Tensor.Build.{with_elements}
use omle_runtime.Tensor.Convert.{first_cells}
use omle_runtime.Operators.{owned_elements, wants_f64}
use omle_runtime.Operators.Gathered.{update_row, update_rows}
use omle_runtime.Operators.Core.{clamp, clamp_cell, clip_tensor}

-- What the bounds need of a floating-point order: nothing is below itself, and the bounds are not
-- the wrong way round.
pub record Bounded (T : Float) (lo hi : T.Carrier) : Type 0 where
  pub lo_lo : T.lt lo lo ≡ false
  pub hi_hi : T.lt hi hi ≡ false
  pub ordered : T.lt hi lo ≡ false

-- A value brought within the bounds: the value itself, or the bound on whose wrong side it is.
pub record IsClamped (T : Float) (lo hi before after : T.Carrier) : Type 0 where
  pub not_below : T.lt after lo ≡ false
  pub not_above : T.lt hi after ≡ false
  pub chosen :
      (after ≡ before)
      ⊎ (((T.lt before lo ≡ true) × (after ≡ lo)) ⊎ ((T.lt hi before ≡ true) × (after ≡ hi)))

-- The elements of two lists at the same places are related.
abbrev pub Pairs : {A : Type 0} → (A → A → Type 0) → List A → List A → Type 0
Pairs R [] [] = Unit
Pairs R (c ∷ cs) (c' ∷ cs') = R c c' × Pairs R cs cs'
Pairs R _ _ = ⊥

module _ (T : Float) (lo hi : T.Carrier) (b : Bounded T lo hi) where
  -- A clamped value is not below the lower bound, nor above the upper one.
  clamp-within :
      (v : T.Carrier) → (T.lt (clamp T v lo hi) lo ≡ false) × (T.lt hi (clamp T v lo hi) ≡ false)
  unfolding clamp
  clamp-within v = elim (Bool-cases (T.lt v lo)) [
    | inl e ↦ rw e (b.lo_lo, b.ordered)
    | inr e ↦ elim (Bool-cases (T.lt hi v)) [
      | inl h ↦ rw (e, h) (b.ordered, b.hi_hi)
      | inr h ↦ rw (e, h) (e, h)
    ]
  ]

  clamp-IsClamped : (v : T.Carrier) → IsClamped T lo hi v (clamp T v lo hi)
  unfolding clamp
  clamp-IsClamped v =
      let (below, above) = clamp-within v in
      record { not_below = below; not_above = above; chosen = choice }
    where
      choice :
          (clamp T v lo hi ≡ v)
          ⊎ (((T.lt v lo ≡ true) × (clamp T v lo hi ≡ lo))
              ⊎ ((T.lt hi v ≡ true) × (clamp T v lo hi ≡ hi)))
      choice = elim (Bool-cases (T.lt v lo)) [
        | inl e ↦ inr (inl (e, rw e refl))
        | inr e ↦ elim (Bool-cases (T.lt hi v)) [
          | inl h ↦ inr (inr (h, rw (e, h) refl))
          | inr h ↦ inl (rw (e, h) refl)
        ]
      ]

  -- A clamped value stays as it is.
  clamp-again : (v : T.Carrier) → clamp T (clamp T v lo hi) lo hi ≡ clamp T v lo hi
  unfolding clamp
  clamp-again v = let (below, above) = clamp-within v in fixed (clamp T v lo hi) below above
    where
      fixed : (x : T.Carrier) → T.lt x lo ≡ false → T.lt hi x ≡ false → clamp T x lo hi ≡ x
      fixed x p q = rw (p, q) refl

first_cells-length :
    ⦃fl : Floats⦄ (n : ℕ) (cells : List Cell) {row : List Cell}
    → first_cells n cells ≡ ok row
    → (length row ≡ n) × (length cells ≡ n + length (drop n cells))
unfolding first_cells
first_cells-length zero cells h = let e : [] ≡ _ = ok-injective h in (rw (← e) refl, omega arith)
first_cells-length (suc n) [] h = cc
first_cells-length (suc n) (c ∷ cells) h =
    let (cs, e, h') = >>=-eq-ok (first_cells n cells) (λ cs. ok (c ∷ cs)) h in
    let (l, m) = first_cells-length n cells e in
    let q : c ∷ cs ≡ _ = ok-injective h' in (rw (← q) (omega (arith, l)), omega (arith, m))

first_cells-append :
    ⦃fl : Floats⦄ (n : ℕ) (row rest : List Cell)
    → length row ≡ n
    → (first_cells n (row ++ rest) ≡ ok row) × (drop n (row ++ rest) ≡ rest)
unfolding first_cells
first_cells-append zero [] rest h = (refl, refl)
first_cells-append zero (c ∷ row) rest h = absurd (omega arith)
first_cells-append (suc n) [] rest h = absurd (omega arith)
first_cells-append (suc n) (c ∷ row) rest h =
    let (p, q) = first_cells-append n row rest (omega arith) in (rw p refl, q)

module _ ⦃fl : Floats⦄ (step : Cell → Result Cell)
    (again : (c c' : Cell) → step c ≡ ok c' → step c' ≡ ok c') (R : Cell → Cell → Type 0)
    (made : (c c' : Cell) → step c ≡ ok c' → R c c') where
  update_row-again :
      (f : ℕ) (row : List Cell) {row' : List Cell}
      → update_row (λ i. step) f row ≡ ok row'
      → (length row' ≡ length row) × (update_row (λ i. step) f row' ≡ ok row') × Pairs R row row'
  unfolding update_row
  update_row-again f [] h =
      let e : [] ≡ _ = ok-injective h in (rw (← e) refl, rw (← e) refl, rw (← e) tt)
  update_row-again f (c ∷ row) h =
      let next = λ (c' : Cell). update_row (λ i. step) (suc f) row >>= λ rest. ok (c' ∷ rest) in
      let (c', e, h') = >>=-eq-ok (step c) next h in
      let (rest, e', h'') =
        >>=-eq-ok (update_row (λ i. step) (suc f) row) (λ rest. ok (c' ∷ rest)) h' in
      let (l, m, all) = update_row-again (suc f) row e' in
      let q : c' ∷ rest ≡ _ = ok-injective h'' in
      (rw (← q) (omega (arith, l)), rw (← q, again c c' e, m) refl, rw (← q) (made c c' e, all))

  -- A loop over n elements from the start, run on its own result.
  update_rows-again :
      (n : ℕ) (cells : List Cell) {cells' : List Cell}
      → update_rows (update_row (λ i. step) 0) 1 n cells ≡ ok cells'
      → (length cells' ≡ length cells)
        × (update_rows (update_row (λ i. step) 0) 1 n cells' ≡ ok cells')
        × (row : List Cell) × (row' : List Cell) × (first_cells n cells ≡ ok row)
        × (first_cells n cells' ≡ ok row')
        × Pairs R row row'
  unfolding update_rows
  update_rows-again n cells h =
      let rest = drop n cells in
      let (row, e, h') =
        >>=-eq-ok (first_cells n cells)
          (λ row. update_row (λ i. step) 0 row >>= λ row'. ok (row' ++ rest)) h in
      let (row', e', h'') =
        >>=-eq-ok (update_row (λ i. step) 0 row) (λ row'. ok (row' ++ rest)) h' in
      let (len, all) = first_cells-length n cells e in
      let (l, m, pairs) = update_row-again 0 row e' in
      let (p, q) = first_cells-append n row' rest (l ∙ len) in
      let z : row' ++ rest ≡ _ = ok-injective h'' in
      (
        rw (← z) (length-append row' rest ∙ omega (arith, l, len, all)),
        rw (← z, p, m, q) refl,
        row,
        row',
        e,
        rw (← z) p,
        pairs,
      )

module _ ⦃fl : Floats⦄ where
  open fl use {f32, f64, narrow}

  -- The elements that a tensor owns are those that were written to it.
  owned_elements-with :
      (k : Kind) (t : Tensor) (cells : List Cell)
      → t.kind ≡ k
      → length cells ≡ length (owned_elements t)
      → owned_elements (with_elements t cells) ≡ cells
  unfolding owned_elements with_elements
  owned_elements-with dense t cells e h = rw e refl
  owned_elements-with sparse t cells e h = rw e refl
  owned_elements-with scalar t [] e h = absurd (let z : 0 ≡ 1 = rw e at h in omega (arith, z))
  owned_elements-with scalar t (c ∷ []) e h = rw e refl
  owned_elements-with scalar t (c ∷ d ∷ cells) e h =
      absurd (let z : suc (suc (length cells)) ≡ 1 = rw e at h in omega (arith, z))

  -- A write of the elements keeps the type and the extents, and a second one changes nothing.
  with_elements-kept :
      (k : Kind) (t : Tensor) (cells : List Cell)
      → t.kind ≡ k
      → (wants_f64 (with_elements t cells) ≡ wants_f64 t)
        × (numel (with_elements t cells) ≡ numel t)
        × (with_elements (with_elements t cells) cells ≡ with_elements t cells)
  unfolding with_elements wants_f64 numel
  with_elements-kept dense t cells e = rw e (refl, refl, refl)
  with_elements-kept sparse t cells e = rw e (refl, refl, refl)
  with_elements-kept scalar t [] e = rw e (refl, refl, refl)
  with_elements-kept scalar t (c ∷ cells) e = rw e (refl, refl, refl)

  clamp_cell-again :
      (wide : Bool) (lo hi : F64)
      → Bounded f64 lo hi
      → Bounded f32 (narrow lo) (narrow hi)
      → (c c' : Cell) → clamp_cell wide lo hi c ≡ ok c'
      → clamp_cell wide lo hi c' ≡ ok c'
  unfolding clamp_cell read_f32 read_f64
  clamp_cell-again true lo hi b b' c c' h =
      let (x, e, h') = >>=-eq-ok (read_f64 c) (λ x. ok (double_cell (clamp f64 x lo hi))) h in
      let q : double_cell (clamp f64 x lo hi) ≡ c' = ok-injective h' in
      rw (← q, clamp-again f64 lo hi b x) refl
  clamp_cell-again false lo hi b b' c c' h =
      let (x, e, h') =
        >>=-eq-ok (read_f32 c) (λ x. ok (float_cell (clamp f32 x (narrow lo) (narrow hi)))) h in
      let q : float_cell (clamp f32 x (narrow lo) (narrow hi)) ≡ c' = ok-injective h' in
      rw (← q, clamp-again f32 (narrow lo) (narrow hi) b' x) refl

  -- A cell of a clipped tensor, by the cell in its place before.
  abbrev pub ClampedCell : Bool → F64 → F64 → Cell → Cell → Type 0
  ClampedCell true lo hi c c' =
      (x : F64) × (y : F64) × (read_f64 c ≡ ok x) × (c' ≡ double_cell y) × IsClamped f64 lo hi x y
  ClampedCell false lo hi c c' =
      (x : F32) × (y : F32) × (read_f32 c ≡ ok x)
      × (c' ≡ float_cell y)
      × IsClamped f32 (narrow lo) (narrow hi) x y

  clamp_cell-ClampedCell :
      (wide : Bool) (lo hi : F64)
      → Bounded f64 lo hi
      → Bounded f32 (narrow lo) (narrow hi)
      → (c c' : Cell) → clamp_cell wide lo hi c ≡ ok c'
      → ClampedCell wide lo hi c c'
  unfolding clamp_cell
  clamp_cell-ClampedCell true lo hi b b' c c' h =
      let (x, e, h') = >>=-eq-ok (read_f64 c) (λ x. ok (double_cell (clamp f64 x lo hi))) h in
      (x, clamp f64 x lo hi, e, sym (ok-injective h'), clamp-IsClamped f64 lo hi b x)
  clamp_cell-ClampedCell false lo hi b b' c c' h =
      let (x, e, h') =
        >>=-eq-ok (read_f32 c) (λ x. ok (float_cell (clamp f32 x (narrow lo) (narrow hi)))) h in
      (
        x,
        clamp f32 x (narrow lo) (narrow hi),
        e,
        sym (ok-injective h'),
        clamp-IsClamped f32 (narrow lo) (narrow hi) b' x,
      )

  -- Where neither bound is below itself and the upper one is not below the lower one, both as
  -- doubles and as floats, each element of a clipped tensor is, at the width of the tensor, not
  -- below the lower bound nor above the upper one, and is the element before or the bound on whose
  -- wrong side that was; clipping the result again changes nothing.
  pub clip_tensor-ClampedCell :
      (lo hi : F64) (src clipped : Tensor)
      → Bounded f64 lo hi
      → Bounded f32 (narrow lo) (narrow hi)
      → clip_tensor lo hi src ≡ ok clipped
      → (row : List Cell) × (row' : List Cell) × (first_cells (numel src) (owned_elements src)
          ≡ ok row)
        × (first_cells (numel clipped) (owned_elements clipped) ≡ ok row')
        × Pairs (ClampedCell (wants_f64 src) lo hi) row row'
        × (clip_tensor lo hi clipped ≡ ok clipped)
  unfolding clip_tensor
  clip_tensor-ClampedCell lo hi src clipped b b' h =
      let step = clamp_cell (wants_f64 src) lo hi in
      let call = update_rows (update_row (λ i. step) 0) 1 (numel src) (owned_elements src) in
      let (cells, e, h') = >>=-eq-ok call (λ cells. ok (with_elements src cells)) h in
      let q : with_elements src cells ≡ clipped = ok-injective h' in
      let (l, m, row, row', before, after, pairs) =
        update_rows-again step (clamp_cell-again (wants_f64 src) lo hi b b')
          (ClampedCell (wants_f64 src) lo hi) (clamp_cell-ClampedCell (wants_f64 src) lo hi b b')
          (numel src) (owned_elements src) e in
      let (wide, count, twice) = with_elements-kept src.kind src cells refl in
      let own = owned_elements-with src.kind src cells refl l in
      (
        row,
        row',
        before,
        rw (← q, count, own) after,
        pairs,
        rw (← q, wide, count, own, m) (ap ok twice),
      )
