-- ===== src/Prelude/Maps.antt =====
-- `std::unordered_map` with string keys, as an association list with at most one entry for a key.
-- The iteration order of the source's maps is unspecified: here it is the order of first insertion.
use Prim.Native.String.{String}
use mathlib.Core.Path.{◌≡◌, refl}
use mathlib.Core.Bool.{Bool, true, false, ◌||◌}
use mathlib.Core.Option.{Option, none, some}
use mathlib.Core.List.{List, [], ◌∷◌}
use native.Mathlib.Omega.{arith}
use text.Mathlib.Text.{◌==◌ as str_eq}
use text.Mathlib.TextEquality.{eq_iff}
use text.Mathlib.TextPositions.{eq_refl}
use omle_runtime.Prelude.Tests.{if◌then◌else◌}

-- s == t on strings
abbrev pub same : String → String → Bool
same s t = str_eq s t

abbrev pub Map {ℓ} : Type ℓ → Type ℓ
Map V = List (String × V)

unfoldable pub mem_name : String → List String → Bool
mem_name s [] = false
mem_name s (t ∷ ts) = same t s || mem_name s ts

module _ {ℓ} {V : Type ℓ} where
  -- m.find(k)
  unfoldable pub lookup : String → Map V → Option V
  lookup key [] = none
  lookup key ((name, val) ∷ rest) = if same name key then some val else lookup key rest

  -- m[k] = v, m.insert_or_assign(k, v)
  unfoldable pub insert : String → V → Map V → Map V
  insert key new [] = (key, new) ∷ []
  insert key new ((name, val) ∷ rest) =
      if same name key then (name, new) ∷ rest else (name, val) ∷ insert key new rest

  -- m.count(k) > 0
  unfoldable pub has_key : String → Map V → Bool
  unfolding lookup
  has_key k m = elim (lookup k m) [ none ↦ false | some v ↦ true ]

  abbrev pub keys : Map V → List String
  keys [] = []
  keys ((k, v) ∷ m) = k ∷ keys m

  pub lookup-insert :
      (key asked : String) (new : V) (entries : Map V)
      → lookup asked (insert key new entries)
        ≡ (if same key asked then some new else lookup asked entries)
  unfolding lookup insert
  lookup-insert key asked new [] = refl
  lookup-insert key asked new ((name, val) ∷ rest) =
      let tail = lookup-insert key asked new rest in
      ground (arith, eq_iff name asked, eq_iff name key, eq_iff key asked, tail)

  pub lookup-insert_self :
      (key : String) (new : V) (entries : Map V) → lookup key (insert key new entries) ≡ some new
  lookup-insert_self key new entries = simp (lookup-insert, eq_refl)

pub same_refl : (s : String) → same s s ≡ true
same_refl s = eq_refl s
