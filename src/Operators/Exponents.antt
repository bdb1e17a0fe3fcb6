-- ===== src/Operators/Exponents.antt =====
-- src/operator_registry.cpp, op_polynomial_features: the lists of exponents that gen finds.
use mathlib.Core.Bool.{false≢true}
use mathlib.Core.Path.{subst}
use omle_runtime.Prelude.{
  ℕ, zero, suc, ◌+◌, ◌-◌, ◌≤◌, ◌<◌, min, ◌≡◌, refl, sym, ap, ◌∙◌, arith, Bool, true, false,
  Bool-cases, ◌⊎◌, ◌↔◌, inl, inr, List, [], ◌∷◌, ◌++◌, All, All-append, length, foldl,
  if◌then◌else◌,
}
use omle_runtime.Prelude.Int.{ℤ, pos, leb_ℤ}
use omle_runtime.Operators.Powers.{degree_of, complete, each_exponent, gen, generated}

-- The sum of the exponents.
abbrev pub total : List ℕ → ℕ
total [] = 0
total (e ∷ es) = e + total es

-- The list is among the others.
abbrev pub Among : List ℕ → List (List ℕ) → Type 0
Among xs [] = ⊥
Among xs (ys ∷ yss) = (xs ≡ ys) ⊎ Among xs yss

-- One exponent for each of the features, of a sum that is not above the degree, and none above 1
-- where features only interact.
pub record Fits (interaction_only : Bool) (nf d : ℕ) (es : List ℕ) : Type 0 where
  pub width : length es ≡ nf
  pub within : total es ≤ d
  pub single : interaction_only ≡ true → All (λ e. e ≤ 1) es

foldl-total : (es : List ℕ) (n : ℕ) → foldl (λ s e. s + e) n es ≡ n + total es
foldl-total [] n = omega arith
foldl-total (e ∷ es) n = omega (arith, foldl-total es (n + e))

degree_of-total : (es : List ℕ) → degree_of es ≡ total es
unfolding degree_of
degree_of-total es = omega (arith, foldl-total es 0)

append_nil : (es : List ℕ) → es ++ [] ≡ es
append_nil [] = refl
append_nil (e ∷ es) = ap (λ xs. e ∷ xs) (append_nil es)

append_snoc : (es : List ℕ) (k : ℕ) (rest : List ℕ) → (es ++ (k ∷ [])) ++ rest ≡ es ++ (k ∷ rest)
append_snoc [] k rest = refl
append_snoc (e ∷ es) k rest = ap (λ xs. e ∷ xs) (append_snoc es k rest)

All-imp :
    {P Q : List ℕ → Type 0}
    → ((x : List ℕ) → P x → Q x)
    → (xs : List (List ℕ)) → All P xs
    → All Q xs
All-imp f [] h = tt
All-imp f (x ∷ xs) h = (f x h.0, All-imp f xs h.1)

Among-left : (x : List ℕ) (xs ys : List (List ℕ)) → Among x xs → Among x (xs ++ ys)
Among-left x [] ys h = absurd h
Among-left x (y ∷ xs) ys (inl e) = inl e
Among-left x (y ∷ xs) ys (inr h) = inr (Among-left x xs ys h)

Among-right : (x : List ℕ) (xs ys : List (List ℕ)) → Among x ys → Among x (xs ++ ys)
Among-right x [] ys h = h
Among-right x (y ∷ xs) ys h = inr (Among-right x xs ys h)

each_exponent-All :
    (P : List ℕ → Type 0) (f : ℕ → List (List ℕ)) (e n : ℕ)
    → ((k : ℕ) → e ≤ k → k < e + n → All P (f k))
    → All P (each_exponent f e n)
unfolding each_exponent
each_exponent-All P f e zero h = tt
each_exponent-All P f e (suc n) h =
    All-append P (f e) (each_exponent f (suc e) n) (h e (omega arith) (omega arith))
      (each_exponent-All P f (suc e) n (λ k a b. h k (omega arith) (omega arith)))

order_cases : (e k : ℕ) → e ≤ k → (e < k) ⊎ (e ≡ k)
order_cases zero zero h = inr refl
order_cases zero (suc k) h = inl (omega arith)
order_cases (suc e) zero h = absurd (omega (arith, h))
order_cases (suc e) (suc k) h = elim (order_cases e k (omega arith)) [
  | inl l ↦ inl (omega arith)
  | inr q ↦ inr (ap suc q)
]

each_exponent-Among :
    (x : List ℕ) (f : ℕ → List (List ℕ)) (e n k : ℕ)
    → e ≤ k
    → k < e + n
    → Among x (f k)
    → Among x (each_exponent f e n)
unfolding each_exponent
each_exponent-Among x f e zero k a b h = absurd (omega (arith, a, b))
each_exponent-Among x f e (suc n) k a b h = elim (order_cases e k a) [
  | inl l ↦
      Among-right x (f e) (each_exponent f (suc e) n)
        (each_exponent-Among x f (suc e) n k (omega arith) (omega arith) h)
  | inr q ↦ Among-left x (f e) (each_exponent f (suc e) n) (subst (λ k. Among x (f k)) (sym q) h)
]

-- What gen adds to the exponents that it has: some that fit, and enough of them together.
Extends : ℤ → Bool → ℕ → ℕ → List ℕ → List ℕ → Type 0
Extends least interaction_only left remain cur xs =
    (es : List ℕ) × (xs ≡ cur ++ es)
    × Fits interaction_only left remain es
    × (leb_ℤ least (pos (total xs)) ≡ true)

complete_sound :
    (least : ℤ) (io : Bool) (remain : ℕ) (cur : List ℕ)
    → All (Extends least io 0 remain cur) (complete least cur)
unfolding complete Extends
complete_sound least io remain cur = elim (Bool-cases (leb_ℤ least (pos (degree_of cur)))) [
  | inl h ↦ rw h (
    (
      [],
      sym (append_nil cur),
      record { width = refl; within = omega arith; single = λ q. tt },
      rw⁻¹ (degree_of-total cur) h,
    ),
    tt,
  )
  | inr h ↦ rw h tt
]

extend_further :
    (least : ℤ) (io : Bool) (left remain k : ℕ) (cur xs : List ℕ)
    → k ≤ remain
    → (io ≡ true → k ≤ 1)
    → Extends least io left (remain - k) (cur ++ (k ∷ [])) xs
    → Extends least io (suc left) remain cur xs
unfolding Extends
extend_further least io left remain k cur xs le one (es, e, fits, enough) = (
  k ∷ es,
  e ∙ append_snoc cur k es,
  record {
    width = ap suc fits.width;
    within = omega (arith, fits.within);
    single = λ q. (one q, fits.single q);
  },
  enough,
)

below_degree :
    (io : Bool) (remain k : ℕ) → k < suc (if io then min 1 remain else remain) → k ≤ remain
below_degree true remain k h = omega (arith, h)
below_degree false remain k h = omega (arith, h)

at_most_one :
    (io : Bool) (remain k : ℕ) → k < suc (if io then min 1 remain else remain) → io ≡ true → k ≤ 1
at_most_one true remain k h q = omega (arith, h)
at_most_one false remain k h q = absurd (false≢true q)

gen_sound :
    (least : ℤ) (io : Bool) (left remain : ℕ) (cur : List ℕ)
    → All (Extends least io left remain cur) (gen least io left remain cur)
unfolding gen
gen_sound least io zero remain cur = complete_sound least io remain cur
gen_sound least io (suc left) remain cur =
    each_exponent-All (Extends least io (suc left) remain cur)
      (λ e. gen least io left (remain - e) (cur ++ (e ∷ []))) 0
      (suc (if io then min 1 remain else remain))
      λ k a b.
        All-imp
          (λ xs.
            extend_further least io left remain k cur xs
              (below_degree io remain k (omega (arith, b)))
              (at_most_one io remain k (omega (arith, b))))
          (gen least io left (remain - k) (cur ++ (k ∷ [])))
          (gen_sound least io left (remain - k) (cur ++ (k ∷ [])))

from_zero : {k n : ℕ} → k < n → k < 0 + n
from_zero h = omega (arith, h)

in_loop :
    (io : Bool) (remain k : ℕ)
    → k ≤ remain
    → (io ≡ true → k ≤ 1)
    → k < suc (if io then min 1 remain else remain)
in_loop true remain k h one = let o = one refl in omega (arith, h, o)
in_loop false remain k h one = omega (arith, h)

gen_complete :
    (least : ℤ) (io : Bool) (left remain : ℕ) (cur es xs : List ℕ)
    → xs ≡ cur ++ es
    → Fits io left remain es
    → leb_ℤ least (pos (total xs)) ≡ true
    → Among xs (gen least io left remain cur)
unfolding gen complete
gen_complete least io zero remain cur [] xs e fits enough =
    let same : xs ≡ cur = e ∙ append_nil cur in
    let h : leb_ℤ least (pos (degree_of cur)) ≡ true = rw (degree_of-total cur, sym same) enough in
    rw h (inl same)
gen_complete least io zero remain cur (k ∷ es) xs e fits enough =
    let w = fits.width in absurd (omega (arith, w))
gen_complete least io (suc left) remain cur [] xs e fits enough =
    let w = fits.width in absurd (omega (arith, w))
gen_complete least io (suc left) remain cur (k ∷ es) xs e fits enough =
    let width : length es ≡ left = omega (arith, fits.width) in
    let le : k + total es ≤ remain = fits.within in
    each_exponent-Among xs (λ e. gen least io left (remain - e) (cur ++ (e ∷ []))) 0
      (suc (if io then min 1 remain else remain)) k (omega arith)
      (from_zero (in_loop io remain k (omega (arith, le)) (λ q. (fits.single q).0)))
      (gen_complete least io left (remain - k) (cur ++ (k ∷ [])) es xs
        (e ∙ sym (append_snoc cur k es))
        (record { width = width; within = omega (arith, le); single = λ q. (fits.single q).1 })
        enough)

Among-All : (P : List ℕ → Type 0) (x : List ℕ) (xs : List (List ℕ)) → All P xs → Among x xs → P x
Among-All P x [] h m = absurd m
Among-All P x (y ∷ xs) h (inl e) = subst P (sym e) h.0
Among-All P x (y ∷ xs) h (inr m) = Among-All P x xs h.1 m

-- For a maximal degree that is not negative, the lists of exponents that gen finds are those with
-- one exponent for each feature, a sum from the minimal to the maximal degree and, where features
-- only interact, no exponent above 1: a list is among them exactly if it is of this kind.
pub generated-Fits :
    (least : ℤ) (interaction_only : Bool) (nf d : ℕ) (es : List ℕ)
    → Among es (generated least interaction_only nf (pos d))
      ↔ (Fits interaction_only nf d es × (leb_ℤ least (pos (total es)) ≡ true))
unfolding generated Extends
generated-Fits least io nf d es = (
  λ m.
      let (es', e, fits, enough) =
        Among-All (Extends least io nf d []) es (gen least io nf d []) (gen_sound least io nf d [])
          m in
      (subst (Fits io nf d) (sym e) fits, enough),
  λ (fits, enough). gen_complete least io nf d [] es es refl fits enough,
)
