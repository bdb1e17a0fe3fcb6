-- ===== src/Operators/Tally.antt =====
-- src/operator_registry.cpp, op_majority_vote: the label that wins has the most votes, in whatever order
-- the map of the votes is walked.
use omle_runtime.Prelude.{ℕ, ◌≤◌, ◌≡◌, refl, List, [], ◌∷◌, String}
use omle_runtime.Prelude.Int.{ℤ, pos, negsuc}
use omle_runtime.Floats.{Floats}
use omle_runtime.Status.{ok, fold_list, map_result, ok-injective, >>=-eq-ok, ◌>>=◌}
use omle_runtime.ValueStore.{ValueStore}
use omle_runtime.Operators.Votes.{add_vote, most_voted, label_at, row_vote}
use omle_runtime.Operators.Ballots.{In, tally, add_votes, winner-tally}

module _ ⦃fl : Floats⦄ (vs : ValueStore) (r : ℕ) where
  -- The loop that counts the labels of the inputs.
  count_labels :
      (ins : List String) (labels : List ℤ) (votes : List (ℤ × ℕ))
      → map_result (label_at vs r) ins ≡ ok labels
      → fold_list (λ name votes. label_at vs r name >>= λ z. ok (add_vote z votes)) ins votes
        ≡ ok (add_votes labels votes)
  unfolding add_votes
  count_labels [] labels votes h = let e : [] ≡ labels = ok-injective h in rw (← e) refl
  count_labels (name ∷ ins) labels votes h =
      let (z, e, h') =
        >>=-eq-ok (label_at vs r name) (λ z. map_result (label_at vs r) ins >>= λ zs. ok (z ∷ zs))
          h in
      let (zs, e', h'') = >>=-eq-ok (map_result (label_at vs r) ins) (λ zs. ok (z ∷ zs)) h' in
      let q : z ∷ zs ≡ labels = ok-injective h'' in
      rw (e, ← q) (count_labels ins zs (add_vote z votes) e')

  -- The label that MajorityVote gives to a row is one that at least as many inputs give to that
  -- row as any other label, whatever the order in which the map of the votes is walked, as long as
  -- it has the entries of the map.
  pub row_vote-tally :
      (order : ℕ → List (ℤ × ℕ) → List (ℤ × ℕ)) (ins : List String) (labels : List ℤ)
      → ((e : ℤ × ℕ) (votes : List (ℤ × ℕ)) → In e (order r votes) → In e votes)
      → ((e : ℤ × ℕ) (votes : List (ℤ × ℕ)) → In e votes → In e (order r votes))
      → map_result (label_at vs r) ins ≡ ok labels
      → (z : ℤ) × (row_vote order vs ins r ≡ ok z) × ((k : ℤ) → tally k labels ≤ tally z labels)
  unfolding row_vote
  row_vote-tally order ins labels there back h =
      let votes = add_votes labels [] in
      (
        most_voted (pos 0) (negsuc 0) (order r votes),
        rw (count_labels ins labels [] h) refl,
        winner-tally labels (order r votes) (λ e. there e votes) (λ e. back e votes),
      )
