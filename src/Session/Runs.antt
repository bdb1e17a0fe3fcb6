-- ===== src/Session/Runs.antt =====
-- src/runtime.cpp: what a run leaves in its session.
use omle_runtime.Prelude.{
  ◌≡◌, refl, ap, ◌∙◌, true, Option, none, some, [], ◌∷◌, String, Map, lookup, insert, keys, same,
  lookup-insert, eq_iff, arith, if◌then◌else◌, Bool-cases, inl, inr,
}
use omle_runtime.Floats.{Floats}
use omle_runtime.Status.{ok}
use omle_runtime.Tensor.{Tensor}
use omle_runtime.Executor.Parallel.{predict_named, predict_named_serial}
use omle_runtime.Session.{caught, Session, assign_all, run, get_output, found_output}

-- No name stands twice.
abbrev pub Distinct {ℓ} : {V : Type ℓ} → Map V → Type ℓ
Distinct [] = Unit
Distinct ((k, v) ∷ m) = (lookup k m ≡ none) × Distinct m

module _ ⦃fl : Floats⦄ where
  later : Option Tensor → Option Tensor → Option Tensor
  later (some t) o = some t
  later none o = o

  later-none : (o : Option Tensor) → later o none ≡ o
  unfolding later
  later-none none = refl
  later-none (some t) = refl

  later-insert :
      (k name : String) (t : Tensor) (o : Option Tensor) (into : Map Tensor)
      → (same k name ≡ true → o ≡ none)
      → later o (lookup name (insert k t into))
        ≡ later (if same k name then some t else o) (lookup name into)
  unfolding later
  later-insert k name t o into h = elim (Bool-cases (same k name)) [
    | inl e ↦ rw (h e, lookup-insert k name t into, e)
    | inr e ↦ rw (lookup-insert k name t into, e)
  ]

  lookup-assign_all :
      (from into : Map Tensor) (name : String)
      → Distinct from
      → lookup name (assign_all from into) ≡ later (lookup name from) (lookup name into)
  unfolding assign_all lookup later
  lookup-assign_all [] into name d = refl
  lookup-assign_all ((k, t) ∷ from) into name d =
      lookup-assign_all from (insert k t into) name d.1
      ∙ later-insert k name t (lookup name from) into (absent d.0)
    where
      absent : lookup k from ≡ none → same k name ≡ true → lookup name from ≡ none
      absent o e = ground (arith, eq_iff k name)

  -- After a run for which the executor gave a map with distinct names, get_output of a name gives
  -- its value in that map, and the error for an unknown output where the map does not have it,
  -- whatever earlier runs left.
  pub get_output-run :
      (s : Session) (fresh : Map Tensor) (name : String)
      → predict_named s.model s.bound_inputs (keys s.bound_outputs) ≡ ok fresh
      → Distinct fresh
      → get_output (run s).1 name ≡ found_output name (lookup name fresh)
  unfolding run get_output predict_named_serial caught lookup
  get_output-run s fresh name h d =
      rw (h, lookup-assign_all fresh [] name d)
        (ap (found_output name) (later-none (lookup name fresh)))
