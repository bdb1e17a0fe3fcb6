-- ===== src/Operators/TokenRows.antt =====
-- src/operator_registry.cpp: rows of tokens written as a tensor of strings and read back.
use mathlib.Core.List.{flatten}
use omle_runtime.Prelude.{
  ℕ, zero, suc, ◌+◌, ◌-◌, ◌*◌, ◌≤◌, ◌<◌, ◌≡◌, refl, sym, ap, ◌∙◌, arith, false, none, some, List,
  [], ◌∷◌, ◌++◌, String, map, length, get_elem?, replicate, All, same, length-append,
  length-replicate, get_elem?-append, get_elem?-append_right,
}
use omle_runtime.Floats.{Floats}
use omle_runtime.Status.{Result, ok, defined, tabulate}
use omle_runtime.Tensor.{str_at}
use omle_runtime.Tensor.Build.{resize, strings}
use omle_runtime.Operators.Tokens.{non_empty, widest, padded, row_tokens, tokens_to_tensor}

module _ {ℓ} {A : Type ℓ} where
  abbrev Wide : ℕ → List A → Type 0
  Wide w row = length row ≡ w

  length-flatten :
      (w : ℕ) (rows : List (List A)) → All (Wide w) rows → length (flatten rows) ≡ length rows * w
  unfolding flatten
  length-flatten w [] h = omega arith
  length-flatten w (row ∷ rows) h =
      let e = length-flatten w rows h.1 in
      let l = length-append row (flatten rows) in omega (arith, e, l, (h.0))

  get_elem?-flatten :
      (w : ℕ) (rows : List (List A)) (r c : ℕ) (row : List A)
      → All (Wide w) rows
      → get_elem? rows r ≡ some row
      → c < w
      → get_elem? (flatten rows) (r * w + c) ≡ get_elem? row c
  unfolding flatten
  get_elem?-flatten w [] r c row h e b = cc
  get_elem?-flatten w (first ∷ rows) zero c row h e b =
      let q : 0 * w + c ≡ c = omega arith in
      let p : first ≡ row = cc in
      let l : c < length first = omega (arith, (h.0)) in
      rw q (get_elem?-append first (flatten rows) c l ∙ ap (λ xs. get_elem? xs c) p)
  get_elem?-flatten w (first ∷ rows) (suc r) c row h e b =
      let q : suc r * w + c ≡ w + (r * w + c) = omega arith in
      get_elem?-append_right first (flatten rows) w (r * w + c) (suc r * w + c) (h.0) q
      ∙ get_elem?-flatten w rows r c row h.1 e b

  -- A loop that reads a list from its start gives the list.
  tabulate-read :
      (f : ℕ → Result A) (start : ℕ) (xs : List A)
      → ((i : ℕ) → i < length xs → f (start + i) ≡ defined (get_elem? xs i))
      → tabulate f start (length xs) ≡ ok xs
  tabulate-read f start [] h = refl
  tabulate-read f start (x ∷ xs) h =
      let z : start + 0 ≡ start = omega arith in
      let first : f start ≡ ok x = rw (← z) (h 0 (omega arith)) in
      let rest : tabulate f (suc start) (length xs) ≡ ok xs = tabulate-read f (suc start) xs λ i b.
        let s : suc start + i ≡ start + suc i = omega arith in rw s (h (suc i) (omega arith)) in
      rw (first, rest) refl

-- No token of the row is empty.
abbrev pub NoneEmpty : List String → Type 0
NoneEmpty row = All (λ s. same s "" ≡ false) row

non_empty-padding : (n : ℕ) → non_empty (replicate n "") ≡ []
unfolding non_empty
non_empty-padding zero = refl
non_empty-padding (suc n) = non_empty-padding n

non_empty-append :
    (row : List String) (n : ℕ) → NoneEmpty row → non_empty (row ++ replicate n "") ≡ row
unfolding non_empty
non_empty-append [] n h = non_empty-padding n
non_empty-append (s ∷ row) n h = rw (h.0) (ap (◌∷◌ s) (non_empty-append row n h.1))

length-padded : (w : ℕ) (row : List String) → length row ≤ w → length (padded w row) ≡ w
unfolding padded
length-padded w row h = omega (
  arith,
  length-append row (replicate (w - length row) ""),
  length-replicate {A = String} (w - length row) "",
)

widest-least :
    (rows : List (List String)) (r : ℕ) (row : List String)
    → get_elem? rows r ≡ some row
    → length row ≤ widest rows
unfolding widest
widest-least [] r row e = cc
widest-least (first ∷ rows) zero row e =
    let p : first ≡ row = cc in let l : length first ≡ length row = ap length p in omega (arith, l)
widest-least (first ∷ rows) (suc r) row e = let h = widest-least rows r row e in omega arith

padded-Wide :
    (w : ℕ) (rows : List (List String)) → widest rows ≤ w → All (Wide w) (map (padded w) rows)
unfolding widest
padded-Wide w [] h = tt
padded-Wide w (row ∷ rows) h = (length-padded w row (omega arith), padded-Wide w rows (omega arith))

get_elem?-map :
    {A B : Type 0} (f : A → B) (xs : List A) (i : ℕ) (x : A)
    → get_elem? xs i ≡ some x
    → get_elem? (map f xs) i ≡ some (f x)
get_elem?-map f [] i x h = cc
get_elem?-map f (y ∷ xs) zero x h = ap (λ o. elim o [ none ↦ none | some a ↦ some (f a) ]) h
get_elem?-map f (y ∷ xs) (suc i) x h = get_elem?-map f xs i x h

length-padded_each :
    (w : ℕ) (rows : List (List String)) → length (map (padded w) rows) ≡ length rows
length-padded_each w [] = refl
length-padded_each w (row ∷ rows) = ap suc (length-padded_each w rows)

module _ ⦃fl : Floats⦄ where
  resize-id : (n : ℕ) (v : List String) → length v ≡ n → resize n v ≡ v
  unfolding resize
  resize-id zero [] h = refl
  resize-id zero (s ∷ v) h = absurd (omega arith)
  resize-id (suc n) [] h = absurd (omega arith)
  resize-id (suc n) (s ∷ v) h = ap (◌∷◌ s) (resize-id n v (omega arith))

  -- The text at row r, column c of a tensor of tokens.
  str_at-tokens :
      (rows : List (List String)) (r c : ℕ) (row : List String)
      → get_elem? rows r ≡ some row
      → c < widest rows
      → str_at (tokens_to_tensor rows) r c ≡ defined (get_elem? (padded (widest rows) row) c)
  unfolding str_at tokens_to_tensor strings
  str_at-tokens rows r c row e b =
      let w = widest rows in
      let wide = padded-Wide w rows (omega arith) in
      let l = length-flatten w (map (padded w) rows) wide in
      let m = length-padded_each w rows in
      rw (resize-id (length rows * w) (flatten (map (padded w) rows)) (rw (m) at l)) (
        ap defined (
          get_elem?-flatten w (map (padded w) rows) r c (padded w row) wide
            (get_elem?-map (padded w) rows r row e) b))

  -- Rows of tokens that are written as a tensor of strings, short rows padded with empty texts,
  -- are read back as they are: a row is, where none of its tokens is empty.
  pub row_tokens-tokens_to_tensor :
      (rows : List (List String)) (r : ℕ) (row : List String)
      → get_elem? rows r ≡ some row
      → NoneEmpty row
      → row_tokens (tokens_to_tensor rows) r ≡ ok row
  unfolding row_tokens tokens_to_tensor strings padded
  row_tokens-tokens_to_tensor rows r row e h =
      let w = widest rows in
      let p = padded w row in
      let l = length-padded w row (widest-least rows r row e) in
      let loop = tabulate-read (str_at (tokens_to_tensor rows) r) 0 p λ i b.
        let z : 0 + i ≡ i = omega arith in rw z (str_at-tokens rows r i row e (omega (arith, l))) in
      let read = sym (ap (tabulate (str_at (tokens_to_tensor rows) r) 0) l) ∙ loop in
      rw read (ap ok (non_empty-append row (w - length row) h))
