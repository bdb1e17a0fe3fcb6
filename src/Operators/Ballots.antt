-- ===== src/Operators/Ballots.antt =====
-- src/operator_registry.cpp, op_majority_vote: the entries of the map of votes, and what the walk over
-- them in any order finds.
use mathlib.Core.Path.{subst}
use omle_runtime.Prelude.{
  ℕ, zero, suc, ◌+◌, ◌≤◌, ◌<◌, ◌≡◌, refl, sym, ap, ◌∙◌, arith, Bool, true, false, Bool-cases, ◌⊎◌,
  inl, inr, List, [], ◌∷◌, All, ltb, if◌then◌else◌,
}
use omle_runtime.Prelude.Int.{ℤ, pos, negsuc, eqb_ℤ, ltb_ℤ}
use omle_runtime.Operators.Votes.{add_vote, most_voted}

eqb_ℤ→≡ : (a b : ℤ) → eqb_ℤ a b ≡ true → a ≡ b
eqb_ℤ→≡ (pos a) (pos b) h = ap pos (ground arith)
eqb_ℤ→≡ (pos a) (negsuc b) h = absurd (ground arith)
eqb_ℤ→≡ (negsuc a) (pos b) h = absurd (ground arith)
eqb_ℤ→≡ (negsuc a) (negsuc b) h = ap negsuc (ground arith)

eqb_ℤ-sym : (a b : ℤ) → eqb_ℤ a b ≡ eqb_ℤ b a
eqb_ℤ-sym a b = ground arith

eqb_ℤ-refl : (a : ℤ) → eqb_ℤ a a ≡ true
eqb_ℤ-refl a = ground arith

-- The entry is in the list.
abbrev pub In : ℤ × ℕ → List (ℤ × ℕ) → Type 0
In e [] = ⊥
In e (f ∷ es) = (e ≡ f) ⊎ In e es

-- The best count, one more than it is, so that it starts at 0.
below : ℕ → ℤ
below zero = negsuc 0
below (suc n) = pos n

ltb_ℤ-below : (c n : ℕ) → ltb_ℤ (below c) (pos n) ≡ ltb c (suc n)
unfolding below
ltb_ℤ-below zero n = ground arith
ltb_ℤ-below (suc c) n = ground arith

-- What the walk over the votes finds.
abbrev Best : ℤ → ℕ → ℤ → List (ℤ × ℕ) → Type 0
Best best c z votes =
    (m : ℕ) × All (λ (e : ℤ × ℕ). e.1 < m) votes
    × (c ≤ m)
    × (((z ≡ best) × (m ≡ c)) ⊎ ((n : ℕ) × In (z, n) votes × (m ≡ suc n)))

Best-yes :
    (best k z : ℤ) (c n : ℕ) (votes : List (ℤ × ℕ))
    → c < suc n
    → Best k (suc n) z votes
    → Best best c z ((k, n) ∷ votes)
Best-yes best k z c n votes h (m, all, le, inl (p, q)) =
    (m, (omega arith, all), omega arith, inr (n, inl (ap (λ a. (a, n)) p), q))
Best-yes best k z c n votes h (m, all, le, inr (n', mem, q)) =
    (m, (omega arith, all), omega arith, inr (n', inr mem, q))

Best-no :
    (best k z : ℤ) (c n : ℕ) (votes : List (ℤ × ℕ))
    → suc n ≤ c
    → Best best c z votes
    → Best best c z ((k, n) ∷ votes)
Best-no best k z c n votes h (m, all, le, inl (p, q)) = (m, (omega arith, all), le, inl (p, q))
Best-no best k z c n votes h (m, all, le, inr (n', mem, q)) =
    (m, (omega arith, all), le, inr (n', inr mem, q))

Best-at :
    (best : ℤ) (c : ℕ) (z z' : ℤ) (votes : List (ℤ × ℕ))
    → z ≡ z'
    → Best best c z' votes
    → Best best c z votes
Best-at best c z z' votes e b = subst (λ z. Best best c z votes) (sym e) b

most_voted-step :
    (best k : ℤ) (c n : ℕ) (votes : List (ℤ × ℕ))
    → most_voted best (below c) ((k, n) ∷ votes)
      ≡ most_voted
          (if ltb c (suc n) then k else best)
          (below (if ltb c (suc n) then suc n else c))
          votes
unfolding most_voted below
most_voted-step best k c n votes = rw (ltb_ℤ-below c n) (step (ltb c (suc n)))
  where
    step :
        (b : Bool)
        → most_voted (if b then k else best) (if b then pos n else below c) votes
          ≡ most_voted (if b then k else best) (below (if b then suc n else c)) votes
    step true = refl
    step false = refl

most_voted-Best :
    (best : ℤ) (c : ℕ) (votes : List (ℤ × ℕ)) → Best best c (most_voted best (below c) votes) votes
unfolding most_voted
most_voted-Best best c [] = (c, tt, omega arith, inl (refl, refl))
most_voted-Best best c ((k, n) ∷ votes) =
    let step = most_voted-step best k c n votes in
    elim (Bool-cases (ltb c (suc n))) [
      | inl e ↦
          let taken =
            Best-yes best k (most_voted k (below (suc n)) votes) c n votes (ground (arith, e))
              (most_voted-Best k (suc n) votes) in
          Best-at best c _ _ ((k, n) ∷ votes) (step ∙ (rw e refl)) taken
      | inr e ↦
          let kept =
            Best-no best k (most_voted best (below c) votes) c n votes (ground (arith, e))
              (most_voted-Best best c votes) in
          Best-at best c _ _ ((k, n) ∷ votes) (step ∙ (rw e refl)) kept
    ]

-- How many of the labels are k.
abbrev pub tally : ℤ → List ℤ → ℕ
tally k [] = 0
tally k (z ∷ zs) = if eqb_ℤ z k then suc (tally k zs) else tally k zs

unfoldable pub add_votes : List ℤ → List (ℤ × ℕ) → List (ℤ × ℕ)
add_votes [] votes = votes
add_votes (z ∷ zs) votes = add_votes zs (add_vote z votes)

votes_for : ℤ → List (ℤ × ℕ) → ℕ
votes_for k [] = 0
votes_for k ((j, n) ∷ votes) = if eqb_ℤ j k then n else votes_for k votes

votes_for-add_vote :
    (k z : ℤ) (votes : List (ℤ × ℕ))
    → votes_for k (add_vote z votes) ≡ (if eqb_ℤ z k then 1 else 0) + votes_for k votes
unfolding votes_for add_vote
votes_for-add_vote k z [] = ground arith
votes_for-add_vote k z ((j, n) ∷ votes) =
    let rest = votes_for-add_vote k z votes in
    elim (Bool-cases (eqb_ℤ j z)) [
      | inl e ↦ rw (e, eqb_ℤ→≡ j z e) (ground arith)
      | inr e ↦ rw (e, rest) (differ e (Bool-cases (eqb_ℤ j k)))
    ]
  where
    differ :
        eqb_ℤ j z ≡ false
        → ((eqb_ℤ j k ≡ true) ⊎ (eqb_ℤ j k ≡ false))
        → (if eqb_ℤ j k then n else (if eqb_ℤ z k then 1 else 0) + votes_for k votes)
          ≡ (if eqb_ℤ z k then 1 else 0) + (if eqb_ℤ j k then n else votes_for k votes)
    differ e (inl p) =
        let q : eqb_ℤ k z ≡ false = rw (eqb_ℤ→≡ j k p) at e in
        rw (p, eqb_ℤ-sym z k, q) (omega arith)
    differ e (inr p) = rw p refl

Absent : ℤ → List (ℤ × ℕ) → Type 0
Absent k [] = Unit
Absent k ((j, n) ∷ votes) = (eqb_ℤ j k ≡ false) × Absent k votes

Distinct : List (ℤ × ℕ) → Type 0
unfolding Absent
Distinct [] = Unit
Distinct ((j, n) ∷ votes) = Absent j votes × Distinct votes

add_vote-Absent :
    (k z : ℤ) (votes : List (ℤ × ℕ))
    → Absent k votes
    → eqb_ℤ z k ≡ false
    → Absent k (add_vote z votes)
unfolding Absent add_vote
add_vote-Absent k z [] h e = (e, tt)
add_vote-Absent k z ((j, n) ∷ votes) h e = elim (Bool-cases (eqb_ℤ j z)) [
  | inl p ↦ rw p h
  | inr p ↦ rw p (h.0, add_vote-Absent k z votes h.1 e)
]

add_vote-Distinct : (z : ℤ) (votes : List (ℤ × ℕ)) → Distinct votes → Distinct (add_vote z votes)
unfolding Absent Distinct add_vote
add_vote-Distinct z [] h = (tt, tt)
add_vote-Distinct z ((j, n) ∷ votes) h = elim (Bool-cases (eqb_ℤ j z)) [
  | inl p ↦ rw p h
  | inr p ↦ rw p (add_vote-Absent j z votes h.0 (eqb_ℤ-sym z j ∙ p), add_vote-Distinct z votes h.1)
]

votes_for-add_votes :
    (k : ℤ) (zs : List ℤ) (votes : List (ℤ × ℕ))
    → votes_for k (add_votes zs votes) ≡ tally k zs + votes_for k votes
unfolding add_votes
votes_for-add_votes k [] votes = omega arith
votes_for-add_votes k (z ∷ zs) votes =
    let rest = votes_for-add_votes k zs (add_vote z votes) in
    let first = votes_for-add_vote k z votes in ground (arith, rest, first)

add_votes-Distinct :
    (zs : List ℤ) (votes : List (ℤ × ℕ)) → Distinct votes → Distinct (add_votes zs votes)
unfolding add_votes
add_votes-Distinct [] votes h = h
add_votes-Distinct (z ∷ zs) votes h =
    add_votes-Distinct zs (add_vote z votes) (add_vote-Distinct z votes h)

Absent-votes_for :
    (k : ℤ) (n : ℕ) (j : ℤ) (votes : List (ℤ × ℕ))
    → Absent j votes
    → In (k, n) votes
    → eqb_ℤ j k ≡ false
unfolding Absent
Absent-votes_for k n j [] h b = absurd b
Absent-votes_for k n j ((i, m) ∷ votes) h (inl e) =
    eqb_ℤ-sym j k ∙ rw (← (ap (λ (x : ℤ × ℕ). x.0) e)) at h.0
Absent-votes_for k n j ((i, m) ∷ votes) h (inr e) = Absent-votes_for k n j votes h.1 e

-- The entry of a label is its number of votes.
In-votes_for :
    (k : ℤ) (n : ℕ) (votes : List (ℤ × ℕ))
    → Distinct votes
    → In (k, n) votes
    → votes_for k votes ≡ n
unfolding Distinct votes_for
In-votes_for k n [] h b = absurd b
In-votes_for k n ((j, m) ∷ votes) h (inl e) =
    let p : k ≡ j = ap (λ (x : ℤ × ℕ). x.0) e in
    let q : n ≡ m = ap (λ (x : ℤ × ℕ). x.1) e in
    let same : eqb_ℤ j k ≡ true = rw p (eqb_ℤ-refl j) in rw (same, q) refl
In-votes_for k n ((j, m) ∷ votes) h (inr e) =
    rw (Absent-votes_for k n j votes h.0 e) (In-votes_for k n votes h.1 e)

votes_for-In :
    (k : ℤ) (n : ℕ) (votes : List (ℤ × ℕ)) → votes_for k votes ≡ suc n → In (k, suc n) votes
unfolding votes_for
votes_for-In k n [] h = absurd (omega arith)
votes_for-In k n ((j, m) ∷ votes) h = elim (Bool-cases (eqb_ℤ j k)) [
  | inl p ↦ let q : m ≡ suc n = rw p at h in inl (rw (eqb_ℤ→≡ j k p, q) refl)
  | inr p ↦ inr (votes_for-In k n votes (rw p at h))
]

All-In :
    (m : ℕ) (e : ℤ × ℕ) (votes : List (ℤ × ℕ))
    → All (λ (e : ℤ × ℕ). e.1 < m) votes
    → In e votes
    → e.1 < m
All-In m e [] h b = absurd b
All-In m e (f ∷ votes) h (inl p) = let q : e.1 ≡ f.1 = ap (λ (x : ℤ × ℕ). x.1) p in rw q h.0
All-In m e (f ∷ votes) h (inr p) = All-In m e votes h.1 p

votes_for-tally : (k : ℤ) (labels : List ℤ) → votes_for k (add_votes labels []) ≡ tally k labels
unfolding votes_for
votes_for-tally k labels = let e = votes_for-add_votes k labels [] in omega (arith, e)

-- A label that has an entry has at most as many votes as the winner.
pub winner-tally :
    (labels : List ℤ) (walked : List (ℤ × ℕ))
    → ((e : ℤ × ℕ) → In e walked → In e (add_votes labels []))
    → ((e : ℤ × ℕ) → In e (add_votes labels []) → In e walked)
    → (k : ℤ) → tally k labels ≤ tally (most_voted (pos 0) (negsuc 0) walked) labels
unfolding below Distinct
winner-tally labels walked there back k =
    at_most (tally k labels) (votes_for-tally k labels) (most_voted-Best (pos 0) 0 walked)
  where
    z : ℤ
    z = most_voted (pos 0) (negsuc 0) walked

    counted :
        (m n : ℕ)
        → All (λ (e : ℤ × ℕ). e.1 < m) walked
        → votes_for k (add_votes labels []) ≡ suc n
        → suc n < m
    counted m n all e =
        All-In m (k, suc n) walked all (back (k, suc n) (votes_for-In k n (add_votes labels []) e))

    at_most :
        (t : ℕ)
        → votes_for k (add_votes labels []) ≡ t
        → Best (pos 0) 0 z walked
        → t ≤ tally z labels
    at_most zero e best = omega arith
    at_most (suc t) e (m, all, le, inl (p, q)) =
        absurd (let c = counted m t all e in omega (arith, c, q))
    at_most (suc t) e (m, all, le, inr (n, mem, q)) =
        let c = counted m t all e in
        let v =
          In-votes_for z n (add_votes labels []) (add_votes-Distinct labels [] tt)
            (there (z, n) mem) in
        let w = votes_for-tally z labels in omega (arith, c, q, v, w)
