-- ===== src/Tensor/Search.antt =====
-- include/omle/tensor.h, Tensor::get on a sparse tensor: the binary search against a linear one.
use omle_runtime.Prelude.{
  ℕ, zero, suc, ◌+◌, ◌-◌, ◌/◌, ◌≤◌, ◌<◌, ◌≡◌, refl, sym, ap, ◌∙◌, arith, true, false, Bool-cases,
  inl, inr, Option, none, some, List, get_elem?, ltb, ◌==◌, if◌then◌else◌,
}
use omle_runtime.Floats.{Floats}
use omle_runtime.Status.{ok}
use omle_runtime.Tensor.{Tensor, SparseStore, find_index, read_found, get_sparse}

-- The first of n positions from `start` on that has column c.
abbrev pub first_at : (ℕ → ℕ) → ℕ → ℕ → ℕ → Option ℕ
first_at g c start zero = none
first_at g c start (suc n) = if g start == c then some start else first_at g c (suc start) n

or_else : Option ℕ → Option ℕ → Option ℕ
or_else none o = o
or_else (some k) o = some k

or_else-none : (o : Option ℕ) → or_else o none ≡ o
unfolding or_else
or_else-none none = refl
or_else-none (some k) = refl

first_at-add :
    (g : ℕ → ℕ) (c start m n : ℕ)
    → first_at g c start (m + n) ≡ or_else (first_at g c start m) (first_at g c (start + m) n)
unfolding or_else
first_at-add g c start zero n =
    let p : 0 + n ≡ n = omega arith in let q : start + 0 ≡ start = omega arith in rw (p, q)
first_at-add g c start (suc m) n =
    let p : suc m + n ≡ suc (m + n) = omega arith in
    let q : start + suc m ≡ suc start + m = omega arith in
    rw (p, q)
      (elim (Bool-cases (g start == c)) [
        | inl e ↦ rw e
        | inr e ↦ rw e (first_at-add g c (suc start) m n)
      ])

first_at-none :
    (g : ℕ → ℕ) (c start n : ℕ)
    → ((i : ℕ) → start ≤ i → i < start + n → (g i == c) ≡ false)
    → first_at g c start n ≡ none
first_at-none g c start zero h = refl
first_at-none g c start (suc n) h =
    rw (h start (omega arith) (omega arith))
      (first_at-none g c (suc start) n (λ i a b. h i (omega arith) (omega arith)))

module _ (indices : List ℕ) (g : ℕ → ℕ) (first last : ℕ) where
  -- The columns of the row's entries, from position `first` to before `last`, are g and increase.
  pub record IsRow : Type 0 where
    pub reads : (i : ℕ) → first ≤ i → i < last → get_elem? indices i ≡ some (g i)
    pub increases : (i j : ℕ) → first ≤ i → i < j → j < last → g i < g j

split_at :
    (g : ℕ → ℕ) (c lo mid hi : ℕ)
    → lo ≤ mid
    → mid ≤ hi
    → first_at g c lo (hi - lo) ≡ or_else (first_at g c lo (mid - lo)) (first_at g c mid (hi - mid))
split_at g c lo mid hi a b =
    let p : hi - lo ≡ (mid - lo) + (hi - mid) = omega arith in
    let q : lo + (mid - lo) ≡ mid = omega arith in
    rw p (first_at-add g c lo (mid - lo) (hi - mid) ∙ rw q)

module _ (indices : List ℕ) (g : ℕ → ℕ) (c : ℕ) where
  at_or_below :
      {lo hi : ℕ} (i mid : ℕ) → IsRow indices g lo hi → lo ≤ i → i ≤ mid → mid < hi → g i ≤ g mid
  at_or_below i mid row a b d = elim (Bool-cases (i == mid)) [
    | inl e ↦ let f : i ≡ mid = ground arith in rw f (omega arith)
    | inr e ↦ omega (arith, row.increases i mid a (ground arith) d)
  ]

  none_below :
      (lo mid hi : ℕ)
      → IsRow indices g lo hi
      → mid ≤ hi
      → ((i : ℕ) → lo ≤ i → i < mid → g i < c)
      → first_at g c lo (mid - lo) ≡ none
  none_below lo mid hi row b h =
      first_at-none g c lo (mid - lo) (λ i p q. ground (arith, h i p (omega arith)))

  at_middle :
      (lo mid hi : ℕ)
      → IsRow indices g lo hi
      → lo ≤ mid
      → mid < hi
      → (g mid == c) ≡ true
      → first_at g c lo (hi - lo) ≡ some mid
  unfolding or_else
  at_middle lo mid hi row a b e =
      let z : hi - mid ≡ suc (hi - mid - 1) = omega arith in
      let n =
        none_below lo mid hi row (omega arith)
          (λ i p q. ground (arith, row.increases i mid p q b)) in
      split_at g c lo mid hi a (omega arith) ∙ rw (n, z, e)

  right_half :
      (lo mid hi : ℕ)
      → IsRow indices g lo hi
      → lo ≤ mid
      → mid < hi
      → g mid < c
      → first_at g c lo (hi - lo) ≡ first_at g c (mid + 1) (hi - (mid + 1))
  unfolding or_else
  right_half lo mid hi row a b e =
      let n =
        none_below lo (mid + 1) hi row (omega arith)
          (λ i p q. omega (arith, at_or_below i mid row p (omega arith) b)) in
      split_at g c lo (mid + 1) hi (omega arith) (omega arith) ∙ rw n

  left_half :
      (lo mid hi : ℕ)
      → IsRow indices g lo hi
      → lo ≤ mid
      → mid < hi
      → c < g mid
      → first_at g c lo (hi - lo) ≡ first_at g c lo (mid - lo)
  left_half lo mid hi row a b e =
      let n = first_at-none g c mid (hi - mid) (λ i p q. ground (arith, above i p (omega arith))) in
      split_at g c lo mid hi a (omega arith) ∙ rw n (or_else-none (first_at g c lo (mid - lo)))
    where
      above : (i : ℕ) → mid ≤ i → i < hi → c < g i
      above i p q = elim (Bool-cases (mid == i)) [
        | inl f ↦ let f' : i ≡ mid = ground arith in rw f' e
        | inr f ↦ omega (arith, row.increases mid i a (ground arith) q)
      ]

  sub_row :
      {lo hi : ℕ} (lo' hi' : ℕ)
      → IsRow indices g lo hi
      → lo ≤ lo'
      → hi' ≤ hi
      → IsRow indices g lo' hi'
  sub_row lo' hi' row a b = record {
    reads = λ i p q. row.reads i (omega arith) (omega arith);
    increases = λ i j p q r. row.increases i j (omega arith) q (omega arith);
  }

  module _ ⦃fl : Floats⦄ where
    find_index-first_at :
        (fuel lo hi : ℕ)
        → IsRow indices g lo hi
        → hi - lo ≤ fuel
        → find_index fuel indices c lo hi ≡ ok (first_at g c lo (hi - lo))
    unfolding find_index
    find_index-first_at zero lo hi row b = let z : hi - lo ≡ 0 = omega arith in rw z
    find_index-first_at (suc fuel) lo hi row b =
        let mid = lo + (hi - lo) / 2 in
        elim (Bool-cases (ltb lo hi)) [
          | inr e ↦ let z : hi - lo ≡ 0 = ground arith in rw (e, z)
          | inl e ↦
              let m : mid < hi = ground arith in
              let read = row.reads mid (omega arith) m in
              elim (Bool-cases (g mid == c)) [
                | inl f ↦ rw (e, read, f) (ap ok (sym (at_middle lo mid hi row (omega arith) m f)))
                | inr f ↦ elim (Bool-cases (ltb (g mid) c)) [
                  | inl d ↦
                      rw (e, read, f, d)
                        (find_index-first_at fuel (mid + 1) hi
                            (sub_row (mid + 1) hi row (omega arith) (omega arith)) (omega arith)
                          ∙ ap ok (sym (right_half lo mid hi row (omega arith) m (ground arith))))
                  | inr d ↦
                      rw (e, read, f, d)
                        (find_index-first_at fuel lo mid
                            (sub_row lo mid row (omega arith) (omega arith)) (omega arith)
                          ∙ ap ok (sym (left_half lo mid hi row (omega arith) m (ground arith))))
                ]
              ]
        ]

    -- Where the columns of a row's entries lie within the index array and increase, the binary
    -- search of get on a sparse tensor gives what a linear search does: the stored element of the
    -- first entry with the column, and the default where there is none.
    pub get_sparse-first_at :
        (t : Tensor) (sp : SparseStore) (r first last : ℕ)
        → sp.sp_indices ≡ indices
        → get_elem? sp.sp_indptr r ≡ some first
        → get_elem? sp.sp_indptr (r + 1) ≡ some last
        → IsRow indices g first last
        → get_sparse t sp r c ≡ read_found t.dtype sp (first_at g c first (last - first))
    unfolding get_sparse
    get_sparse-first_at t sp r first last same_indices from to row =
        let search =
          ap (λ xs. find_index (suc (last - first)) xs c first last) same_indices
          ∙ find_index-first_at (suc (last - first)) first last row (omega arith) in
        rw (from, to, search)
